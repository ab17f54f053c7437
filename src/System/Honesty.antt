-- ===== src/System/Honesty.antt =====
-- Whether the status that is written for a route says what the gateway does with it.
use pg_k8s_proxy.Common.{
  ◌≡◌, ◌≢◌, refl, sym, ap, ◌∙◌, subst, Bytes, none, some, List, [], Bool, true, false, bytes_keys,
  if◌then◌else◌, Bool-cases, Option-cases, Result-cases, inl, inr,
}
use pg_k8s_proxy.Api.{PostgresRoute, key_of, effective_database, name_eq, name_eq_iff, name_keys}
use pg_k8s_proxy.Registry.Resolve.{Resolver, Route, address, resolve}
use pg_k8s_proxy.Registry.Resolve.Fields.{resolve-TakesOver}
use pg_k8s_proxy.Registry.Build.{Decision, Snapshot, programmed, accepted_as, conflict}
use pg_k8s_proxy.Registry.Build.Winners.{champion}
use pg_k8s_proxy.Registry.Build.Rounds.{In, HaveDistinctNames, entry_of}
use pg_k8s_proxy.Registry.Build.Champion.{Leads, champion-Leads, champion-listed, same_of_keys}
use pg_k8s_proxy.Registry.Build.Decisions.{
  winner_entry, winner_decision, table-build, decisions-build,
}
use pg_k8s_proxy.Registry.Table.{table_lookup, decision_of}
use pg_k8s_proxy.Controller.RouteTable.{Cluster, Builder, Reach}
use pg_k8s_proxy.Controller.RouteTable.Settling.{IsQuiet, quiet_up_to_date}
use pg_k8s_proxy.Controller.Status.{
  RouteStatus, Library, IsLawful, condition_accepted, condition_programmed, string_of,
  desired_status,
}
use pg_k8s_proxy.Controller.Status.Conditions.{Says, desired_status-Reports}

-- The entry that the table has for the database of the route is the route's own, at this address.
pub record Serves (s : Snapshot) (r : PostgresRoute) (endpoint : Bytes) : Type 0 where
  pub route : Route
  pub entry : table_lookup s.table (effective_database r) ≡ some route
  pub own : route.source ≡ key_of r
  pub at : address route ≡ endpoint

-- What a snapshot holds for the decision of a route of a list.
data Decided (s : Snapshot) (routes : List PostgresRoute) (r : PostgresRoute) (d : Decision)
    : Type 0 where
  serving :
      programmed d ≡ true
      → Leads (effective_database r) routes r
      → Serves s r d.endpoint
      → Decided s routes r d
  unresolved :
      programmed d ≡ false
      → d.accepted ≡ true
      → Leads (effective_database r) routes r
      → table_lookup s.table (effective_database r) ≡ none
      → Decided s routes r d
  lost :
      programmed d ≡ false
      → d.accepted ≡ false
      → (w : PostgresRoute) → Leads (effective_database r) routes w
      → d.conflicts_with ≡ key_of w
      → key_of w ≢ key_of r
      → ((x : Route) → table_lookup s.table (effective_database r) ≡ some x → x.source ≡ key_of w)
      → Decided s routes r d

module _ (resolver : Resolver) (domain : Bytes) (s : Snapshot) (routes : List PostgresRoute)
    (r : PostgresRoute) where
  accepted_as-Decided :
      Leads (effective_database r) routes r
      → table_lookup s.table (effective_database r) ≡ entry_of (resolve resolver domain r) none
      → Decided s routes r (accepted_as (effective_database r) (resolve resolver domain r))
  accepted_as-Decided leads entry = elim (Result-cases (resolve resolver domain r)) [
    | inl (route, e) ↦ rw e (
        serving refl leads (record {
          route = route;
          entry = rw e at entry;
          own = (resolve-TakesOver resolver domain r e).source;
          at = refl;
        }))
    | inr (x, e) ↦ rw e (unresolved refl refl leads (rw e at entry))
  ]

  routed_to :
      (w : PostgresRoute)
      → table_lookup s.table (effective_database r) ≡ entry_of (resolve resolver domain w) none
      → (x : Route) → table_lookup s.table (effective_database r) ≡ some x
      → x.source ≡ key_of w
  routed_to w entry x found = elim (Result-cases (resolve resolver domain w)) [
    | inl (route, e) ↦
        let is : route ≡ x = cc (rw e at entry, found) in
        ap (λ y. y.source) (sym is) ∙ (resolve-TakesOver resolver domain w e).source
    | inr (y, e) ↦ absurd (cc (rw e at entry, found))
  ]

  winner_decision-Decided :
      (w : PostgresRoute)
      → HaveDistinctNames routes
      → In r routes
      → champion (effective_database r) routes ≡ some w
      → table_lookup s.table (effective_database r) ≡ entry_of (resolve resolver domain w) none
      → Decided s routes r (
          if name_eq (key_of w) (key_of r)
          then accepted_as (effective_database r) (resolve resolver domain r)
          else conflict (effective_database r) (key_of w))
  winner_decision-Decided w distinct listed c entry =
      let leads = champion-Leads (effective_database r) routes c in
      elim (Bool-cases (name_eq (key_of w) (key_of r))) [
        | inl e ↦
            let is =
              same_of_keys routes distinct leads.listed listed
                ((name_eq_iff (key_of w) (key_of r)).0 e) in
            rw e (
              accepted_as-Decided (subst (Leads (effective_database r) routes) is leads)
                (entry ∙ ap (λ x. entry_of (resolve resolver domain x) none) is))
        | inr e ↦ rw e (
            lost refl refl w leads refl
              (λ is. absurd (cc ((name_eq_iff (key_of w) (key_of r)).1 is, e))) (routed_to w entry))
      ]

-- What a status tells of a route, set against the table and the routes.
pub data Honest (lib : Library) (s : Snapshot) (routes : List PostgresRoute) (r : PostgresRoute)
    (st : RouteStatus) : Type 0 where
  programmed_true :
      Says r.meta.generation true (lib.find_status_condition st.conditions condition_accepted)
      → Says r.meta.generation true (lib.find_status_condition st.conditions condition_programmed)
      → Leads (effective_database r) routes r
      → Serves s r st.endpoint
      → Honest lib s routes r st
  not_resolved :
      Says r.meta.generation true (lib.find_status_condition st.conditions condition_accepted)
      → Says r.meta.generation false (lib.find_status_condition st.conditions condition_programmed)
      → Leads (effective_database r) routes r
      → table_lookup s.table (effective_database r) ≡ none
      → st.conflicting_route ≡ []
      → Honest lib s routes r st
  conflicting :
      Says r.meta.generation false (lib.find_status_condition st.conditions condition_accepted)
      → Says r.meta.generation false (lib.find_status_condition st.conditions condition_programmed)
      → (w : PostgresRoute) → Leads (effective_database r) routes w
      → key_of w ≢ key_of r
      → st.conflicting_route ≡ string_of (key_of w)
      → ((x : Route) → table_lookup s.table (effective_database r) ≡ some x → x.source ≡ key_of w)
      → Honest lib s routes r st

programmed_accepted : (d : Decision) → programmed d ≡ true → d.accepted ≡ true
programmed_accepted d p = elim (Bool-cases d.accepted) [
  | inl a ↦ a
  | inr a ↦ absurd (cc (rw a at p))
]

module _ (lib : Library) (lawful : IsLawful lib) (s : Snapshot) (routes : List PostgresRoute)
    (r : PostgresRoute) (d : Decision) (before : RouteStatus) where
  says_of :
      {v : Bool}
      → programmed d ≡ v
      → Says r.meta.generation v (
          lib.find_status_condition (desired_status lib r d before).conditions condition_programmed)
  says_of p =
      subst
        (λ v. Says r.meta.generation v (
          lib.find_status_condition (desired_status lib r d before).conditions
            condition_programmed))
        p (desired_status-Reports lib lawful r d before).routed

  accepts :
      {v : Bool}
      → d.accepted ≡ v
      → Says r.meta.generation v
          (lib.find_status_condition (desired_status lib r d before).conditions condition_accepted)
  accepts a =
      subst
        (λ v.
          Says r.meta.generation v (
            lib.find_status_condition (desired_status lib r d before).conditions
              condition_accepted))
        a (desired_status-Reports lib lawful r d before).accepted

  Decided-Honest : Decided s routes r d → Honest lib s routes r (desired_status lib r d before)
  Decided-Honest (serving p leads served) =
      programmed_true (accepts (programmed_accepted d p)) (says_of p) leads (
        subst (Serves s r)
          (sym ((desired_status-Reports lib lawful r d before).winner (programmed_accepted d p)).0)
          served)
  Decided-Honest (unresolved p a leads n) =
      not_resolved (accepts a) (says_of p) leads n
        ((desired_status-Reports lib lawful r d before).winner a).1
  Decided-Honest (lost p a w leads c apart elsewhere) =
      conflicting (accepts a) (says_of p) w leads apart
        (((desired_status-Reports lib lawful r d before).loser a).1 ∙ ap string_of c) elsewhere

-- Once the rebuilds have settled, as they do when nothing is left to do and the latest did not
-- fail, every route of the cluster as it is now has a decision in the store, and the status that is
-- written for it is true of the table that the sessions read: either the route leads its database
-- name, Accepted and Programmed are true, and the table's entry for the name is the route's own,
-- whose address the status shows; or the route leads, Accepted is true, Programmed is not, and the
-- name has no entry; or another route leads, both are false, the status names that one, and any
-- entry is its. Routes are told apart by their names, and the library of conditions is lawful.
pub desired_status-Honest :
    (lib : Library) (cluster_domain : Bytes) {cluster : Cluster} {b : Builder} (r : PostgresRoute)
    (before : RouteStatus)
    → IsLawful lib
    → Reach cluster_domain cluster b
    → IsQuiet b
    → b.failed ≡ false
    → HaveDistinctNames b.cluster.routes
    → In r b.cluster.routes
    → (d : Decision) × (decision_of b.store (key_of r) ≡ some d)
      × Honest lib b.store b.cluster.routes r (desired_status lib r d before)
desired_status-Honest lib cluster_domain {b = b} r before lawful reached q f distinct listed =
    let current = quiet_up_to_date cluster_domain reached q f in
    let resolver = b.cluster.resolver in
    elim (Option-cases (champion (effective_database r) b.cluster.routes)) [
      | inl n ↦ absurd (champion-listed b.cluster.routes listed n)
      | inr (w, c) ↦
          let entry =
            ap (λ x. table_lookup x.table (effective_database r)) current
            ∙ table-build resolver cluster_domain b.cluster.routes (effective_database r)
            ∙ ap (winner_entry resolver cluster_domain) c in
          let decided =
            ap (λ x. decision_of x (key_of r)) current
            ∙ decisions-build resolver cluster_domain b.cluster.routes r distinct listed
            ∙ ap (winner_decision resolver cluster_domain r) c in
          (
            _,
            decided,
            Decided-Honest lib lawful b.store b.cluster.routes r _ before (
                winner_decision-Decided resolver cluster_domain b.store b.cluster.routes r w
                  distinct listed c entry),
          )
    ]
