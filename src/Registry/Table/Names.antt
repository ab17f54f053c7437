-- ===== src/Registry/Table/Names.antt =====
-- The listing of the names of a table.
use mathlib.Core.Logic.{∥∥₁_elim}
use mathlib.Core.List.{Perm}
use pg_k8s_proxy.Common.{
  suc, ◌≡◌, refl, sym, ap, ◌∙◌, Bytes, Option, none, some, List, [], ◌∷◌, Bool, true, false, ◌||◌,
  Result, ok, err, lookup, insert, bytes_keys, text_eq, text_eq_iff, length, arith, Bool-cases,
  Option-cases, inl, inr,
}
use pg_k8s_proxy.Api.{PostgresRoute, name_keys, effective_database}
use pg_k8s_proxy.Registry.Resolve.{Route, Resolver, ResolveError, resolve}
use pg_k8s_proxy.Registry.Build.{
  Progress, build, build_step, build_loop, empty_progress, sort_routes, table_with,
}
use pg_k8s_proxy.Registry.Table.{Table, Range, sort_texts, databases, table_len}
use pg_k8s_proxy.Registry.Table.Sorted.{
  has_name, Ascending, Unrepeated, has_name-sort_texts, sort_texts-Ascending, length-sort_texts,
  sort_texts-permᴰ,
}

-- The keys of a table as its entries stand.
abbrev pub names_of : Table → List Bytes
names_of [] = []
names_of ((name, route) ∷ rest) = name ∷ names_of rest

-- The language promises no more of `range` than that it gives each key once, in some order.
abbrev pub IsRange : Range → Type 0
IsRange range = (t : Table) → Perm (names_of t) (range t)

abbrev pub is_some {ℓ} : {A : Type ℓ} → Option A → Bool
is_some none = false
is_some (some a) = true

has_name-names_of : (n : Bytes) (t : Table) → has_name n (names_of t) ≡ is_some (lookup n t)
unfolding lookup
has_name-names_of n [] = refl
has_name-names_of n ((m, r) ∷ t) = ground (arith, has_name-names_of n t)

has_name-insert :
    (n k : Bytes) (v : Route) (t : Table)
    → has_name n (names_of (insert k v t)) ≡ text_eq k n || has_name n (names_of t)
unfolding insert
has_name-insert n k v [] = refl
has_name-insert n k v ((m, r) ∷ t) =
    ground (arith, has_name-insert n k v t, text_eq_iff m k, text_eq_iff k n, text_eq_iff m n)

insert-Unrepeated :
    (k : Bytes) (v : Route) (t : Table)
    → Unrepeated (names_of t)
    → Unrepeated (names_of (insert k v t))
unfolding insert
insert-Unrepeated k v [] u = (refl, tt)
insert-Unrepeated k v ((m, r) ∷ t) (n, u) = elim (Bool-cases (text_eq m k)) [
  | inl e ↦ rw (e, insert) (ap (λ x. has_name x (names_of t)) (sym ((text_eq_iff m k).0 e)) ∙ n, u)
  | inr e ↦
      rw (e, insert)
        (
          has_name-insert m k v t ∙ ground (arith, n, text_eq_iff m k, text_eq_iff k m, e),
          insert-Unrepeated k v t u,
        )
]

table_with-Unrepeated :
    (database : Bytes) (res : Result ResolveError Route) (t : Table)
    → Unrepeated (names_of t)
    → Unrepeated (names_of (table_with database res t))
table_with-Unrepeated database (ok route) t u = insert-Unrepeated database route t u
table_with-Unrepeated database (err e) t u = u

build_step-Unrepeated :
    (resolver : Resolver) (domain : Bytes) (s : Progress) (r : PostgresRoute)
    → Unrepeated (names_of s.table)
    → Unrepeated (names_of (build_step resolver domain s r).table)
unfolding build_step
build_step-Unrepeated resolver domain s r u =
    elim (Option-cases (lookup (effective_database r) s.winners)) [
      | inl e ↦
          rw (e, build_step)
            (table_with-Unrepeated (effective_database r) (resolve resolver domain r) s.table u)
      | inr (w, e) ↦ rw (e, build_step) u
    ]

build_loop-Unrepeated :
    (resolver : Resolver) (domain : Bytes) (s : Progress) (rs : List PostgresRoute)
    → Unrepeated (names_of s.table)
    → Unrepeated (names_of (build_loop resolver domain s rs).table)
unfolding build_loop
build_loop-Unrepeated resolver domain s [] u = u
build_loop-Unrepeated resolver domain s (r ∷ rs) u =
    build_loop-Unrepeated resolver domain (build_step resolver domain s r) rs
      (build_step-Unrepeated resolver domain s r u)

length-names_of : (t : Table) → length (names_of t) ≡ length t
length-names_of [] = refl
length-names_of ((n, r) ∷ t) = ap suc (length-names_of t)

texts-set : IsSet (List Bytes)
texts-set = hlevel

-- The listing does not depend on the order of the map.
databases-range :
    (range : Range) (t : Table) → IsRange range → databases range t ≡ sort_texts (names_of t)
unfolding databases
databases-range range t r = sym (
    ∥∥₁_elim (r t) (texts-set (sort_texts (names_of t)) (sort_texts (range t)))
      (λ d. sort_texts-permᴰ d))

-- Whatever order `range` gives the keys of a map in, the names that the table of `Build` lists are
-- in strictly ascending order, they are just the names under which it has a route, and there are as
-- many as `Len` says.
pub databases-build :
    (range : Range) (resolver : Resolver) (domain : Bytes) (routes : List PostgresRoute)
    → IsRange range
    → let t = (build resolver domain routes).table in
      Ascending (databases range t)
      × ((n : Bytes) → has_name n (databases range t) ≡ is_some (lookup n t))
      × (length (databases range t) ≡ table_len t)
unfolding build
databases-build range resolver domain routes r =
    let t = (build_loop resolver domain empty_progress (sort_routes routes)).table in
    rw (databases-range range t r) (
      sort_texts-Ascending (names_of t)
          (build_loop-Unrepeated resolver domain empty_progress (sort_routes routes) tt),
      (λ n. has_name-sort_texts n (names_of t) ∙ has_name-names_of n t),
      length-sort_texts (names_of t) ∙ length-names_of t,
    )
