-- ===== src/Registry/Build/Decisions.antt =====
-- What `Build` returns, stated with no sorting and no maps.
use pg_k8s_proxy.Common.{
  ◌≡◌, ◌≢◌, refl, sym, ap, subst, ◌∙◌, Bytes, Option, none, some, List, [], ◌∷◌, lookup, lookup-nil,
  text_eq_iff, if◌then◌else◌, All, arith, Bool-cases, inl, inr, bytes_keys, ◌⊎◌,
}
use pg_k8s_proxy.Api.{
  NamespacedName, PostgresRoute, key_of, effective_database, name_keys, name_eq, name_eq_iff,
}
use pg_k8s_proxy.Registry.Resolve.{Resolver, Route, resolve}
use pg_k8s_proxy.Registry.Build.{
  Decision, Progress, conflict, accepted_as, build_step, empty_progress, build_loop, build,
  sort_routes, insert_route, less,
}
use pg_k8s_proxy.Registry.Build.Winners.{
  All-insert_route, first, champion, claims, first-sort_routes,
}
use pg_k8s_proxy.Registry.Build.Rounds.{
  In, here, there, HaveDistinctNames, All-In, step_taken, step_other, step_wins, step_decides_other,
  step_decides_conflict, step_decides_accepted, entry_of,
}

module _ (resolver : Resolver) (domain : Bytes) where
  -- The loop from any state on, for a name that is taken.
  loop_taken :
      (rs : List PostgresRoute) (s : Progress) (database : Bytes) {w : NamespacedName}
      → lookup database s.winners ≡ some w
      → lookup database (build_loop resolver domain s rs).table ≡ lookup database s.table
  unfolding build_loop
  loop_taken [] s database e = refl
  loop_taken (r ∷ rs) s database e =
      let (e', t) = step_taken resolver domain s r database e in
      loop_taken rs (build_step resolver domain s r) database e' ∙ t

  abbrev pub winner_entry : Option PostgresRoute → Option Route
  winner_entry none = none
  winner_entry (some w) = entry_of (resolve resolver domain w) none

  -- The loop from any state on, for a name that is free.
  loop_free :
      (rs : List PostgresRoute) (s : Progress) (database : Bytes)
      → lookup database s.winners ≡ none
      → lookup database s.table ≡ none
      → lookup database (build_loop resolver domain s rs).table ≡ winner_entry (first database rs)
  unfolding build_loop first
  loop_free [] s database e t = t
  loop_free (r ∷ rs) s database e t = elim (Bool-cases (claims database r)) [
    | inl c ↦
        let (e', t') = step_wins resolver domain s r database c e in
        rw c (
          loop_taken rs (build_step resolver domain s r) database e'
          ∙ t'
          ∙ ap (entry_of (resolve resolver domain r)) t)
    | inr c ↦
        let (e', t') = step_other resolver domain s r database c in
        rw c (loop_free rs (build_step resolver domain s r) database (e' ∙ e) (t' ∙ t))
  ]

  loop_undecided :
      (rs : List PostgresRoute) (s : Progress) (k : NamespacedName)
      → All (λ x. key_of x ≢ k) rs
      → lookup k (build_loop resolver domain s rs).decisions ≡ lookup k s.decisions
  unfolding build_loop
  loop_undecided [] s k a = refl
  loop_undecided (r ∷ rs) s k a =
      loop_undecided rs (build_step resolver domain s r) k a.1
      ∙ step_decides_other resolver domain s r k a.0

  -- The decision for a route whose name is taken when the loop starts.
  loop_conflict :
      (rs : List PostgresRoute) (s : Progress) (r : PostgresRoute) {w : NamespacedName}
      → In r rs
      → HaveDistinctNames rs
      → lookup (effective_database r) s.winners ≡ some w
      → lookup (key_of r) (build_loop resolver domain s rs).decisions
        ≡ some (conflict (effective_database r) w)
  unfolding build_loop
  loop_conflict [] s r i d e = elim i [ ]
  loop_conflict (x ∷ rs) s r {w} (here q) d e =
      loop_undecided rs (build_step resolver domain s x) (key_of r)
        (subst (λ (z : PostgresRoute). All (λ y. key_of y ≢ key_of z) rs) (sym q) d.0)
      ∙ subst
          (λ (z : PostgresRoute).
            lookup (key_of r) (build_step resolver domain s z).decisions
            ≡ some (conflict (effective_database r) w))
          q (step_decides_conflict resolver domain s r e)
  loop_conflict (x ∷ rs) s r (there i) d e =
      loop_conflict rs (build_step resolver domain s x) r i d.1
        (step_taken resolver domain s x (effective_database r) e).0

  abbrev pub winner_decision : PostgresRoute → Option PostgresRoute → Option Decision
  winner_decision r none = none
  winner_decision r (some w) = some (
      if name_eq (key_of w) (key_of r)
      then accepted_as (effective_database r) (resolve resolver domain r)
      else conflict (effective_database r) (key_of w))

  decides_here :
      (rs : List PostgresRoute) (s : Progress) (r : PostgresRoute)
      → All (λ x. key_of x ≢ key_of r) rs
      → lookup (effective_database r) s.winners ≡ none
      → lookup (key_of r) (build_loop resolver domain (build_step resolver domain s r) rs).decisions
        ≡ winner_decision r
            (if claims (effective_database r) r then some r else first (effective_database r) rs)
  decides_here rs s r a e =
      loop_undecided rs (build_step resolver domain s r) (key_of r) a
      ∙ step_decides_accepted resolver domain s r e
      ∙ rw (
        (text_eq_iff (effective_database r) (effective_database r)).1 refl,
        (name_eq_iff (key_of r) (key_of r)).1 refl,
      )

  loop_decides :
      (rs : List PostgresRoute) (s : Progress) (r : PostgresRoute)
      → In r rs
      → HaveDistinctNames rs
      → lookup (effective_database r) s.winners ≡ none
      → lookup (key_of r) (build_loop resolver domain s rs).decisions
        ≡ winner_decision r (first (effective_database r) rs)
  unfolding build_loop first
  loop_decides [] s r i d e = elim i [ ]
  loop_decides (x ∷ rs) s r (here q) d e =
      subst
        (λ (z : PostgresRoute).
          lookup (key_of r)
            (build_loop resolver domain (build_step resolver domain s z) rs).decisions
          ≡ winner_decision r
              (if claims (effective_database r) z then some z else first (effective_database r) rs))
        q
        (decides_here rs s r
          (subst (λ (z : PostgresRoute). All (λ y. key_of y ≢ key_of z) rs) (sym q) d.0) e)
  loop_decides (x ∷ rs) s r (there i) d e = elim (Bool-cases (claims (effective_database r) x)) [
    | inl c ↦ rw c (
        loop_conflict rs (build_step resolver domain s x) r i d.1
          (step_wins resolver domain s x (effective_database r) c e).0
        ∙ ground
            (arith, name_eq_iff (key_of x) (key_of r), All-In (λ y. key_of y ≢ key_of x) d.0 i))
    | inr c ↦ rw c (
        loop_decides rs (build_step resolver domain s x) r i d.1
          ((step_other resolver domain s x (effective_database r) c).0 ∙ e))
  ]

In-insert_route :
    {r : PostgresRoute} (x : PostgresRoute) (rs : List PostgresRoute)
    → (r ≡ x) ⊎ In r rs
    → In r (insert_route x rs)
unfolding insert_route
In-insert_route x [] (inl e) = here e
In-insert_route x [] (inr i) = elim i [ ]
In-insert_route x (y ∷ rs) (inl e) = elim (Bool-cases (less y x)) [
  | inl c ↦ rw (c, insert_route) (there (In-insert_route x rs (inl e)))
  | inr c ↦ rw (c, insert_route) (here e)
]
In-insert_route x (y ∷ rs) (inr (here e)) = elim (Bool-cases (less y x)) [
  | inl c ↦ rw (c, insert_route) (here e)
  | inr c ↦ rw (c, insert_route) (there (here e))
]
In-insert_route x (y ∷ rs) (inr (there i)) = elim (Bool-cases (less y x)) [
  | inl c ↦ rw (c, insert_route) (there (In-insert_route x rs (inr i)))
  | inr c ↦ rw (c, insert_route) (there (there i))
]

In-sort_routes : {r : PostgresRoute} (rs : List PostgresRoute) → In r rs → In r (sort_routes rs)
unfolding sort_routes
In-sort_routes [] i = elim i [ ]
In-sort_routes (x ∷ rs) (here e) = In-insert_route x (sort_routes rs) (inl e)
In-sort_routes (x ∷ rs) (there i) = In-insert_route x (sort_routes rs) (inr (In-sort_routes rs i))

insert_route-HaveDistinctNames :
    (r : PostgresRoute) (rs : List PostgresRoute)
    → All (λ s. key_of s ≢ key_of r) rs
    → HaveDistinctNames rs
    → HaveDistinctNames (insert_route r rs)
unfolding insert_route
insert_route-HaveDistinctNames r [] a d = (tt, tt)
insert_route-HaveDistinctNames r (x ∷ rs) a d = elim (Bool-cases (less x r)) [
  | inl e ↦
      rw (e, insert_route)
        (
          All-insert_route (λ s. key_of s ≢ key_of x) r rs (λ q. a.0 (sym q)) d.0,
          insert_route-HaveDistinctNames r rs a.1 d.1,
        )
  | inr e ↦ rw (e, insert_route) (a, d)
]

All-sort_routes :
    (P : PostgresRoute → Type 0) (rs : List PostgresRoute) → All P rs → All P (sort_routes rs)
unfolding sort_routes
All-sort_routes P [] a = tt
All-sort_routes P (r ∷ rs) a = All-insert_route P r (sort_routes rs) a.0 (All-sort_routes P rs a.1)

sort_routes-HaveDistinctNames :
    (rs : List PostgresRoute) → HaveDistinctNames rs → HaveDistinctNames (sort_routes rs)
unfolding sort_routes
sort_routes-HaveDistinctNames [] d = tt
sort_routes-HaveDistinctNames (r ∷ rs) d =
    insert_route-HaveDistinctNames r (sort_routes rs)
      (All-sort_routes (λ s. key_of s ≢ key_of r) rs d.0) (sort_routes-HaveDistinctNames rs d.1)

module _ (resolver : Resolver) (domain : Bytes) (routes : List PostgresRoute) where
  -- The table holds a name exactly if the winner of the name resolves, and then to that route.
  pub table-build :
      (database : Bytes)
      → lookup database (build resolver domain routes).table
        ≡ winner_entry resolver domain (champion database routes)
  unfolding build
  table-build database =
      loop_free resolver domain (sort_routes routes) empty_progress database (lookup-nil database)
        (lookup-nil database)
      ∙ ap (winner_entry resolver domain) (first-sort_routes database routes)

  -- Every route of a list in which names tell the routes apart has a decision: the winner of its
  -- name is accepted, with the endpoint or the error of its resolution, and every other claim names
  -- the winner as what it conflicts with.
  pub decisions-build :
      (r : PostgresRoute)
      → HaveDistinctNames routes
      → In r routes
      → lookup (key_of r) (build resolver domain routes).decisions
        ≡ winner_decision resolver domain r (champion (effective_database r) routes)
  unfolding build
  decisions-build r d i =
      loop_decides resolver domain (sort_routes routes) empty_progress r (In-sort_routes routes i)
        (sort_routes-HaveDistinctNames routes d) (lookup-nil (effective_database r))
      ∙ ap (winner_decision resolver domain r) (first-sort_routes (effective_database r) routes)
