-- ===== src/Registry/Build/Winners.antt =====
-- The route that wins a database name: the first in sorted order, and the least of all claims.
use pg_k8s_proxy.Common.{
  ◌≡◌, refl, ◌∙◌, ap, Bytes, Option, none, some, List, [], ◌∷◌, Bool, false, text_eq, if◌then◌else◌,
  All, arith, Bool-cases, inl, inr,
}
use pg_k8s_proxy.Api.{PostgresRoute, effective_database}
use pg_k8s_proxy.Registry.Build.{less, insert_route, sort_routes}
use pg_k8s_proxy.Registry.Order.{less-asymm, less-neg_trans}

abbrev pub claims : Bytes → PostgresRoute → Bool
claims database r = text_eq (effective_database r) database

-- The first route of a list that claims a name.
unfoldable pub first : Bytes → List PostgresRoute → Option PostgresRoute
first database [] = none
first database (r ∷ rs) = if claims database r then some r else first database rs

abbrev pub better : PostgresRoute → Option PostgresRoute → PostgresRoute
better r none = r
better r (some s) = if less s r then s else r

-- The claim that no other claim precedes, wherever it stands; of equals, the first.
unfoldable pub champion : Bytes → List PostgresRoute → Option PostgresRoute
champion database [] = none
champion database (r ∷ rs) =
    if claims database r then some (better r (champion database rs)) else champion database rs

abbrev pub IsSorted : List PostgresRoute → Type 0
IsSorted [] = Unit
IsSorted (r ∷ rs) = All (λ s. less s r ≡ false) rs × IsSorted rs

pub All-insert_route :
    (P : PostgresRoute → Type 0) (r : PostgresRoute) (rs : List PostgresRoute)
    → P r
    → All P rs
    → All P (insert_route r rs)
unfolding insert_route
All-insert_route P r [] h t = (h, tt)
All-insert_route P r (s ∷ rs) h t = elim (Bool-cases (less s r)) [
  | inl e ↦ rw (e, insert_route) (t.0, All-insert_route P r rs h t.1)
  | inr e ↦ rw (e, insert_route) (h, t)
]

All-not_less :
    (a b : PostgresRoute) (rs : List PostgresRoute)
    → less b a ≡ false
    → All (λ s. less s b ≡ false) rs
    → All (λ s. less s a ≡ false) rs
All-not_less a b [] h t = tt
All-not_less a b (s ∷ rs) h t = (less-neg_trans a b s h t.0, All-not_less a b rs h t.1)

insert_route-IsSorted :
    (r : PostgresRoute) (rs : List PostgresRoute) → IsSorted rs → IsSorted (insert_route r rs)
unfolding insert_route
insert_route-IsSorted r [] s = (tt, tt)
insert_route-IsSorted r (x ∷ rs) (t, s) = ground (
  arith,
  less-asymm x r,
  All-insert_route (λ s. less s x ≡ false) r rs,
  insert_route-IsSorted r rs s,
  All-not_less r x rs,
  t,
)

-- `Build` visits the routes in an order in which none precedes an earlier one.
pub sort_routes-IsSorted : (rs : List PostgresRoute) → IsSorted (sort_routes rs)
unfolding sort_routes
sort_routes-IsSorted [] = tt
sort_routes-IsSorted (r ∷ rs) = insert_route-IsSorted r (sort_routes rs) (sort_routes-IsSorted rs)

better-first :
    (r : PostgresRoute) (database : Bytes) (rs : List PostgresRoute)
    → All (λ s. less s r ≡ false) rs
    → better r (first database rs) ≡ r
unfolding first
better-first r database [] t = refl
better-first r database (s ∷ rs) t = ground (arith, better-first r database rs t.1)

first-insert_route :
    (database : Bytes) (r : PostgresRoute) (rs : List PostgresRoute)
    → IsSorted rs
    → first database (insert_route r rs)
      ≡ (if claims database r then some (better r (first database rs)) else first database rs)
unfolding first insert_route
first-insert_route database r [] s = refl
first-insert_route database r (x ∷ rs) (t, s) =
    ground
      (arith, first-insert_route database r rs s, All-not_less r x rs, better-first r database rs)

-- Sorting puts the winner first.
pub first-sort_routes :
    (database : Bytes) (rs : List PostgresRoute)
    → first database (sort_routes rs) ≡ champion database rs
unfolding sort_routes champion
first-sort_routes database [] = unfold first in refl
first-sort_routes database (r ∷ rs) =
    first-insert_route database r (sort_routes rs) (sort_routes-IsSorted rs)
    ∙ ap (λ (o : Option PostgresRoute). if claims database r then some (better r o) else o)
        (first-sort_routes database rs)
