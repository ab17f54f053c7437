-- ===== src/Registry/Build/Rounds.antt =====
-- One round of the loop of `Build`, at each kind of route.
use pg_k8s_proxy.Common.{
  ◌≡◌, ◌≢◌, sym, subst, Bytes, Option, none, some, List, [], ◌∷◌, true, false, Result, ok, err,
  Assoc, lookup, insert, lookup-insert, text_eq, text_eq_iff, if◌then◌else◌, All, arith,
  Option-cases, inl, inr, bytes_keys,
}
use pg_k8s_proxy.Api.{
  NamespacedName, PostgresRoute, key_of, effective_database, name_keys, name_eq_iff,
}
use pg_k8s_proxy.Registry.Resolve.{ResolveError, Resolver, Route, resolve}
use pg_k8s_proxy.Registry.Build.{Decision, Progress, conflict, accepted_as, table_with, build_step}
use pg_k8s_proxy.Registry.Build.Winners.{claims}

-- A route of a list.
pub data In (r : PostgresRoute) : List PostgresRoute → Type 0 where
  here : {s : PostgresRoute} {rs : List PostgresRoute} → r ≡ s → In r (s ∷ rs)
  there : {s : PostgresRoute} {rs : List PostgresRoute} → In r rs → In r (s ∷ rs)

-- No two routes of one name, as the API server guarantees.
abbrev pub HaveDistinctNames : List PostgresRoute → Type 0
HaveDistinctNames [] = Unit
HaveDistinctNames (r ∷ rs) = All (λ s. key_of s ≢ key_of r) rs × HaveDistinctNames rs

pub All-In {ℓ} :
    (P : PostgresRoute → Type ℓ) {r : PostgresRoute} {rs : List PostgresRoute}
    → All P rs
    → In r rs
    → P r
All-In P {rs = []} a i = elim i [ ]
All-In P {rs = s ∷ rs} a (here e) = subst P (sym e) a.0
All-In P {rs = s ∷ rs} a (there i) = All-In P a.1 i

-- The entry that a resolution leaves, where there was an entry before.
abbrev pub entry_of : Result ResolveError Route → Option Route → Option Route
entry_of (ok route) before = some route
entry_of (err e) before = before

pub lookup-table_with :
    (k j : Bytes) (res : Result ResolveError Route) (t : Assoc Bytes Route)
    → lookup j (table_with k res t)
      ≡ (if text_eq k j then entry_of res (lookup j t) else lookup j t)
lookup-table_with k j (ok route) t = lookup-insert k j route t
lookup-table_with k j (err e) t = ground arith

module _ (resolver : Resolver) (domain : Bytes) where
  -- One round, for a name that is taken, that the route does not claim, and that it wins.
  pub step_taken :
      (s : Progress) (r : PostgresRoute) (database : Bytes) {w : NamespacedName}
      → lookup database s.winners ≡ some w
      → (lookup database (build_step resolver domain s r).winners ≡ some w)
        × (lookup database (build_step resolver domain s r).table ≡ lookup database s.table)
  unfolding build_step
  step_taken s r database e = ground (
    arith,
    lookup-insert (effective_database r) database (key_of r) s.winners,
    lookup-table_with (effective_database r) database (resolve resolver domain r) s.table,
    text_eq_iff (effective_database r) database,
  )

  pub step_other :
      (s : Progress) (r : PostgresRoute) (database : Bytes)
      → claims database r ≡ false
      → (lookup database (build_step resolver domain s r).winners ≡ lookup database s.winners)
        × (lookup database (build_step resolver domain s r).table ≡ lookup database s.table)
  unfolding build_step
  step_other s r database e = ground (
    arith,
    lookup-insert (effective_database r) database (key_of r) s.winners,
    lookup-table_with (effective_database r) database (resolve resolver domain r) s.table,
  )

  pub step_wins :
      (s : Progress) (r : PostgresRoute) (database : Bytes)
      → claims database r ≡ true
      → lookup database s.winners ≡ none
      → (lookup database (build_step resolver domain s r).winners ≡ some (key_of r))
        × (lookup database (build_step resolver domain s r).table
            ≡ entry_of (resolve resolver domain r) (lookup database s.table))
  unfolding build_step
  step_wins s r database c e = ground (
    arith,
    lookup-insert (effective_database r) database (key_of r) s.winners,
    lookup-table_with (effective_database r) database (resolve resolver domain r) s.table,
    text_eq_iff (effective_database r) database,
  )

  pub step_decides_other :
      (s : Progress) (r : PostgresRoute) (k : NamespacedName)
      → key_of r ≢ k
      → lookup k (build_step resolver domain s r).decisions ≡ lookup k s.decisions
  unfolding build_step
  step_decides_other s r k n = elim (Option-cases (lookup (effective_database r) s.winners)) [
    | inl e ↦
        rw (e, build_step)
          (differs (accepted_as (effective_database r) (resolve resolver domain r)))
    | inr (w, e) ↦ rw (e, build_step) (differs (conflict (effective_database r) w))
  ]
    where
      differs : (d : Decision) → lookup k (insert (key_of r) d s.decisions) ≡ lookup k s.decisions
      differs d =
          ground (arith, lookup-insert (key_of r) k d s.decisions, name_eq_iff (key_of r) k, n)

  pub step_decides_conflict :
      (s : Progress) (r : PostgresRoute) {w : NamespacedName}
      → lookup (effective_database r) s.winners ≡ some w
      → lookup (key_of r) (build_step resolver domain s r).decisions
        ≡ some (conflict (effective_database r) w)
  unfolding build_step
  step_decides_conflict s r {w} e =
      rw (e, build_step)
        (ground (
          arith,
          lookup-insert (key_of r) (key_of r) (conflict (effective_database r) w) s.decisions,
          name_eq_iff (key_of r) (key_of r),
        ))

  pub step_decides_accepted :
      (s : Progress) (r : PostgresRoute)
      → lookup (effective_database r) s.winners ≡ none
      → lookup (key_of r) (build_step resolver domain s r).decisions
        ≡ some (accepted_as (effective_database r) (resolve resolver domain r))
  unfolding build_step
  step_decides_accepted s r e =
      let d = accepted_as (effective_database r) (resolve resolver domain r) in
      rw (e, build_step)
        (ground (
          arith,
          lookup-insert (key_of r) (key_of r) d s.decisions,
          name_eq_iff (key_of r) (key_of r),
        ))
