-- ===== src/System/Adoption.antt =====
-- From a Service to the entry of the routing table that discovery makes of it.
use pg_k8s_proxy.Common.{
  ℕ, ◌≡◌, refl, sym, ap, ◌∙◌, inl, inr, subst, Bytes, Option, none, some, List, [], ◌∷◌, ◌++◌, true,
  false, ok, lookup, bytes_keys, codes, is_empty, text_eq, Bool-cases,
}
use pg_k8s_proxy.Api.{
  PostgresRoute, name_keys, tls_disable, effective_database, effective_target_database,
}
use pg_k8s_proxy.Registry.Resolve.{Route, resolve}
use pg_k8s_proxy.Registry.Client.{ClientResolver, client_resolver}
use pg_k8s_proxy.Registry.Build.{build}
use pg_k8s_proxy.Registry.Build.Rounds.{In, entry_of}
use pg_k8s_proxy.Registry.Build.Champion.{IsUnrivalled, unrivalled_leads}
use pg_k8s_proxy.Registry.Build.Decisions.{winner_entry, table-build}
use pg_k8s_proxy.Registry.Table.{table_lookup}
use pg_k8s_proxy.Controller.Services.{
  Service, value_of, port_annotation, database_name, chosen_port,
}
use pg_k8s_proxy.Controller.Discovery.{
  Store, Reconciler, IsLawful, done, new_object, generated_key, in_scope, mutate, reconcile,
}
use pg_k8s_proxy.Controller.Discovery.Ownership.{after_write-store}
use pg_k8s_proxy.Controller.Discovery.Stable.{
  owned, write_leaves, after_write_inv, reconcile-in_scope,
}
use pg_k8s_proxy.Controller.Discovery.Ports.{HasNoPostgresPort, discovered_port_resolves}

-- The object that discovery makes for the Service where there was none, as the cluster lists it.
abbrev pub adopted : Reconciler → Service → ℕ → ℕ → PostgresRoute
adopted r svc generation created = record {
  meta = record {
    namespace = (generated_key svc).namespace;
    name = (generated_key svc).name;
    generation = generation;
    creation_timestamp = created;
  };
  spec = (owned r svc new_object).spec;
}

-- What a client of the database is routed to.
abbrev pub service_route : Reconciler → Bytes → Service → Route
service_route r domain svc = record {
  source = generated_key svc;
  database = database_name r.database_annotation svc;
  target_database = database_name r.database_annotation svc;
  host = svc.key.name ++ (b'.' ∷ (svc.key.namespace ++ (codes ".svc." ++ domain)));
  port = chosen_port svc.ports;
  tls = record { mode = tls_disable; root_cas = none; server_name = [] };
}

pub data Adopted (entry : Option Route) (route : Route) (svc : Service) : Type 0 where
  routed : entry ≡ some route → Adopted entry route svc
  portless : entry ≡ none → HasNoPostgresPort svc.ports → Adopted entry route svc

module _ (r : Reconciler) (svc : Service) (generation created : ℕ) where
  database_name_some :
      is_empty svc.key.name ≡ false → is_empty (database_name r.database_annotation svc) ≡ false
  unfolding database_name
  database_name_some n =
      elim (Bool-cases (is_empty (value_of svc.annotations r.database_annotation))) [
        | inl e ↦ simp (e, database_name) n
        | inr e ↦ simp (e, database_name) refl
      ]

  adopted-database :
      is_empty svc.key.name ≡ false
      → effective_database (adopted r svc generation created)
        ≡ database_name r.database_annotation svc
  unfolding effective_database
  adopted-database n = rw (database_name_some n, effective_database) refl

  resolve-adopted :
      (c : ClientResolver) (domain : Bytes)
      → is_empty svc.key.name ≡ false
      → is_empty svc.key.namespace ≡ false
      → c.client.get_service svc.key.namespace svc.key.name ≡ ok svc.ports
      → is_empty (value_of svc.annotations port_annotation) ≡ true
      → Adopted
          (entry_of (resolve (client_resolver c) domain (adopted r svc generation created)) none)
          (service_route r domain svc)
          svc
  unfolding resolve effective_target_database text_eq
  resolve-adopted c domain n ns g a = elim (discovered_port_resolves r.parse c svc g a) [
    | inl e ↦ routed (simp (ns, e, adopted-database n, resolve, effective_target_database) refl)
    | inr (e, lacking) ↦ portless (simp (ns, e, resolve) refl) lacking
  ]

-- A Service that is new to discovery and in scope: after a reconcile that is done with without an
-- error, its route is in the store, and wherever a cluster lists that route and no other route
-- claims its database name, the table that is built there routes the name, the Service's annotation
-- or else its own name, to the Service's address and the port that was chosen, under the same name
-- and without TLS; unless no port of the Service could be told for the one of PostgreSQL, and then
-- the table has no entry for the name. The libraries do what is documented of them, the resolver
-- reads the ports that discovery read, the Service has a name and a namespace, and no annotation of
-- its port.
pub reconcile-Adopted :
    (r : Reconciler) (c : ClientResolver) (domain : Bytes) (svc : Service) (store : Store)
    (generation created : ℕ) (routes : List PostgresRoute)
    → IsLawful r
    → r.get_service svc.key ≡ ok svc
    → in_scope r svc ≡ true
    → lookup (generated_key svc) store ≡ none
    → (reconcile r svc.key store).0 ≡ done
    → c.client.get_service svc.key.namespace svc.key.name ≡ ok svc.ports
    → is_empty svc.key.name ≡ false
    → is_empty svc.key.namespace ≡ false
    → is_empty (value_of svc.annotations port_annotation) ≡ true
    → In (adopted r svc generation created) routes
    → IsUnrivalled
        (database_name r.database_annotation svc)
        (adopted r svc generation created)
        routes
    → (lookup (generated_key svc) (reconcile r svc.key store).1 ≡ some (owned r svc new_object))
      × Adopted
          (table_lookup
            (build (client_resolver c) domain routes).table
            (database_name r.database_annotation svc))
          (service_route r domain svc)
          svc
reconcile-Adopted r c domain svc store generation created routes lawful g s fresh h ports n ns a
      listed alone =
    let route = adopted r svc generation created in
    let name = adopted-database r svc generation created n in
    let once = reconcile-in_scope r svc.key svc store g s in
    let write = r.create_or_update store (generated_key svc) (mutate r svc) in
    let written = after_write_inv r svc write (sym (ap (λ w. w.0) once) ∙ h) in
    let leads =
      unrivalled_leads routes route listed
        (subst (λ d. IsUnrivalled d route routes) (sym name) alone) in
    let entry =
      table-build (client_resolver c) domain routes (effective_database route)
      ∙ ap (winner_entry (client_resolver c) domain) leads in
    (
      ap (lookup (generated_key svc)) (ap (λ w. w.1) once ∙ after_write-store r lawful write)
          ∙ write_leaves r svc lawful store written
          ∙ ap (λ o. some (owned r svc (elim o [ none ↦ new_object | some x ↦ x ]))) fresh,
      subst (λ e. Adopted e (service_route r domain svc) svc)
          (sym (
            ap (λ d. table_lookup (build (client_resolver c) domain routes).table d) (sym name)
            ∙ entry))
          (resolve-adopted r svc generation created c domain n ns ports a),
    )
