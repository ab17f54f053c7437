-- ===== src/System/Overriding.antt =====
-- A route that somebody wrote, against one that discovery generated for the same database name.
use pg_k8s_proxy.Common.{
  ◌≡◌, ◌≢◌, refl, sym, ap, ◌∙◌, inl, inr, ◌⊎◌, ℤ, Bytes, none, some, List, true, false, lookup,
  bytes_keys, ltb_ℤ, eq_ℤ, eq_ℤ_iff, Bool-cases, Option-cases, Result-cases, subst, arith,
}
use pg_k8s_proxy.Api.{PostgresRoute, key_of, name_keys, name_eq, name_eq_iff, effective_database}
use pg_k8s_proxy.Registry.Resolve.{Resolver, Route, resolve}
use pg_k8s_proxy.Registry.Resolve.Fields.{resolve-TakesOver}
use pg_k8s_proxy.Registry.Build.{Decision, conflict, build, less}
use pg_k8s_proxy.Registry.Build.Winners.{claims, champion}
use pg_k8s_proxy.Registry.Build.Rounds.{In, HaveDistinctNames, All-In}
use pg_k8s_proxy.Registry.Build.Champion.{Leads, champion-Leads, champion-listed, same_of_keys}
use pg_k8s_proxy.Registry.Build.Decisions.{
  winner_entry, winner_decision, table-build, decisions-build,
}
use pg_k8s_proxy.Registry.Table.{table_lookup, decision_of}
use pg_k8s_proxy.Controller.Services.{
  Service, priority, priority_annotation, discovered_route_priority,
}
use pg_k8s_proxy.Controller.Discovery.{Reconciler, generated_spec}

ltb_ℤ-not_eq : (a b : ℤ) → ltb_ℤ a b ≡ true → eq_ℤ b a ≡ false
ltb_ℤ-not_eq a b h = elim (Bool-cases (eq_ℤ b a)) [
  | inr e ↦ e
  | inl e ↦ absurd (ground (arith, subst (λ x. ltb_ℤ a x ≡ true) ((eq_ℤ_iff b a).0 e) h))
]

less-priority :
    (s g : PostgresRoute) → ltb_ℤ g.spec.priority s.spec.priority ≡ true → less s g ≡ true
unfolding less
less-priority s g h = simp (ltb_ℤ-not_eq g.spec.priority s.spec.priority h, less) h

-- What holds of the two in what is built.
pub record IsOverridden (resolver : Resolver) (domain : Bytes) (routes : List PostgresRoute)
    (g : PostgresRoute) : Type 0 where
  pub decision : Decision
  pub decided : decision_of (build resolver domain routes) (key_of g) ≡ some decision
  pub refused : decision.accepted ≡ false
  pub elsewhere :
      (x : Route)
      → table_lookup (build resolver domain routes).table (effective_database g) ≡ some x
      → x.source ≢ key_of g

module _ (resolver : Resolver) (domain : Bytes) (routes : List PostgresRoute)
    (g : PostgresRoute) where
  not_leading :
      (s : PostgresRoute)
      → In s routes
      → claims (effective_database g) s ≡ true
      → less s g ≡ true
      → Leads (effective_database g) routes g
      → ⊥
  not_leading s listed c h leads =
      elim (All-In (λ x. (claims (effective_database g) x ≡ false) ⊎ (less x g ≡ false)) leads.first
        listed) [ inl n ↦ cc (n, c) | inr n ↦ cc (n, h) ]

  loses_to :
      (w : PostgresRoute)
      → HaveDistinctNames routes
      → In g routes
      → champion (effective_database g) routes ≡ some w
      → key_of w ≢ key_of g
      → IsOverridden resolver domain routes g
  loses_to w distinct listed c apart = elim (Bool-cases (name_eq (key_of w) (key_of g))) [
    | inl e ↦ absurd (apart ((name_eq_iff (key_of w) (key_of g)).0 e))
    | inr e ↦ record {
      decision = conflict (effective_database g) (key_of w);
      decided =
          decisions-build resolver domain routes g distinct listed
          ∙ ap (winner_decision resolver domain g) c
          ∙ rw e refl;
      refused = refl;
      elsewhere = λ x found is.
          let entry =
            sym found
            ∙ table-build resolver domain routes (effective_database g)
            ∙ ap (winner_entry resolver domain) c in
          elim (Result-cases (resolve resolver domain w)) [
            | inl (route, r) ↦
                let same : x ≡ route = cc (rw r at entry) in
                apart (
                  sym (resolve-TakesOver resolver domain w r).source
                  ∙ ap (λ y. y.source) (sym same)
                  ∙ is)
            | inr (y, r) ↦ cc (rw r at entry)
          ];
    }
  ]

-- A route with a priority above -100 overrides one that discovery generated for a Service that has
-- no annotation of its priority: if both claim a name, whatever else is in the list, then the
-- generated route is not accepted, and no entry of the table is its. Routes are told apart by their
-- names.
pub overrides_generated :
    (resolver : Resolver) (domain : Bytes) (routes : List PostgresRoute) (r : Reconciler)
    (svc : Service) (g s : PostgresRoute)
    → HaveDistinctNames routes
    → In g routes
    → g.spec ≡ generated_spec r svc g.spec
    → lookup priority_annotation svc.annotations ≡ none
    → In s routes
    → claims (effective_database g) s ≡ true
    → ltb_ℤ discovered_route_priority s.spec.priority ≡ true
    → IsOverridden resolver domain routes g
unfolding priority
overrides_generated resolver domain routes r svc g s distinct listed generated n listed' c above =
    let at : g.spec.priority ≡ discovered_route_priority =
      ap (λ x. x.priority) generated ∙ rw (n, priority) refl in
    let before = less-priority s g (subst (λ p. ltb_ℤ p s.spec.priority ≡ true) (sym at) above) in
    elim (Option-cases (champion (effective_database g) routes)) [
      | inl none_leads ↦ absurd (champion-listed routes listed none_leads)
      | inr (w, leads) ↦ loses_to resolver domain routes g w distinct listed leads (λ same.
          let w_leads = champion-Leads (effective_database g) routes leads in
          let is = same_of_keys routes distinct w_leads.listed listed same in
          not_leading resolver domain routes g s listed' c before
            (subst (Leads (effective_database g) routes) is w_leads))
    ]
