-- ===== src/Registry/Build/Replicas.antt =====
-- `Build` at permutations of one list of routes.
use mathlib.Core.Logic.{∥∥₁_elim}
use mathlib.Core.List.{Perm, Permᴰ}
use pg_k8s_proxy.Common.{◌≡◌, ◌≢◌, refl, sym, ap, ◌∙◌, subst, ap₂, Bytes, List, [], ◌∷◌, All, arith}
use pg_k8s_proxy.Api.{PostgresRoute, key_of}
use pg_k8s_proxy.Registry.Resolve.{Resolver}
use pg_k8s_proxy.Registry.Order.{less-total, less-asymm, less-neg_trans}
use pg_k8s_proxy.Registry.Build.{
  insert_route, sort_routes, snapshot_of, empty_progress, build_loop, build,
}
use pg_k8s_proxy.Registry.Build.Rounds.{HaveDistinctNames}

insert_route_comm :
    (a b : PostgresRoute) (rs : List PostgresRoute)
    → key_of a ≢ key_of b
    → insert_route a (insert_route b rs) ≡ insert_route b (insert_route a rs)
unfolding insert_route
insert_route_comm a b [] n = ground (arith, less-total a b, less-asymm a b, less-asymm b a)
insert_route_comm a b (y ∷ rs) n = ground (
  arith,
  less-total a b,
  less-asymm a b,
  less-asymm b a,
  less-neg_trans b a y,
  less-neg_trans a b y,
  insert_route_comm a b rs n,
)

module _ (P : PostgresRoute → Type 0) where
  All-permᴰ : {l r : List PostgresRoute} → Permᴰ l r → All P l → All P r
  All-permᴰ Permᴰ.nil a = tt
  All-permᴰ (Permᴰ.cons e d) a = (subst P e a.0, All-permᴰ d a.1)
  All-permᴰ (Permᴰ.swap e₁ e₂) a = (subst P e₂ a.1.0, (subst P e₁ a.0, a.1.1))
  All-permᴰ (Permᴰ.trans d₁ d₂) a = All-permᴰ d₂ (All-permᴰ d₁ a)

sort_routes-permᴰ :
    {l r : List PostgresRoute}
    → Permᴰ l r
    → HaveDistinctNames l
    → HaveDistinctNames r × (sort_routes l ≡ sort_routes r)
unfolding sort_routes
sort_routes-permᴰ Permᴰ.nil n = (tt, refl)
sort_routes-permᴰ (Permᴰ.cons {l₂ = l₂} e d) n =
    let (n', q) = sort_routes-permᴰ d n.1 in
    (
      (subst (λ (z : PostgresRoute). All (λ s. key_of s ≢ key_of z) l₂) e (All-permᴰ _ d n.0), n'),
      ap₂ insert_route e q,
    )
sort_routes-permᴰ (Permᴰ.swap {a = a} {b = b} {l = l} e₁ e₂) n = (
  (
    (
      (λ q. n.0.0 (ap key_of e₂ ∙ sym q ∙ ap key_of (sym e₁))),
      subst (λ (z : PostgresRoute). All (λ s. key_of s ≢ key_of z) l) e₂ n.1.0,
    ),
    (subst (λ (z : PostgresRoute). All (λ s. key_of s ≢ key_of z) l) e₁ n.0.1, n.1.1),
  ),
  insert_route_comm a b (sort_routes l) (λ q. n.0.0 (sym q))
      ∙ ap₂ insert_route e₂ (ap (λ (z : PostgresRoute). insert_route z (sort_routes l)) e₁),
)
sort_routes-permᴰ (Permᴰ.trans d₁ d₂) n =
    let (n', q) = sort_routes-permᴰ d₁ n in let (n'', q') = sort_routes-permᴰ d₂ n' in (n'', q ∙ q')

routes-set : IsSet (List PostgresRoute)
routes-set = hlevel

-- For routes that are told apart by their names, the snapshot does not depend on the order in which
-- they are listed.
pub build-perm :
    (resolver : Resolver) (domain : Bytes) (l r : List PostgresRoute)
    → HaveDistinctNames l
    → Perm l r
    → build resolver domain l ≡ build resolver domain r
unfolding build
build-perm resolver domain l r n p =
    ap (λ (rs : List PostgresRoute). snapshot_of (build_loop resolver domain empty_progress rs))
      (∥∥₁_elim p (routes-set _ _) (λ d. (sort_routes-permᴰ d n).1))
