-- ===== src/Controller/Discovery.antt =====
-- src/internal/controller/servicediscovery_controller.go: `ServiceDiscoveryReconciler`, on the
-- store of PostgresRoute objects. The API client, controllerutil, label selectors and intstr.Parse
-- are given, with what is documented of them in `IsLawful`.
pub mod Ownership
pub mod Stable
pub mod Ports
pub mod Events
pub mod Current
use pg_k8s_proxy.Common.{
  ℕ, zero, suc, ℤ, pos, negsuc, ◌+◌, ◌^◌, ◌≡◌, ◌⊎◌, Bytes, Option, none, some, List, [], ◌∷◌, ◌++◌,
  Bool, true, false, not, ◌&&◌, ◌||◌, ◌==◌, ltb, leb, Result, ok, err, Assoc, lookup, insert, erase,
  bytes_keys, codes, is_empty, text_eq, eq_ℤ, length, if◌then◌else◌,
}
use pg_k8s_proxy.Api.{
  IntOrString, int, ServiceBackend, Backend, backend_type_service, PostgresRouteSpec,
  NamespacedName, name_keys, name_eq,
}
use pg_k8s_proxy.Controller.Services.{
  Service, chosen_port, database_name, discovered_route_priority, has_5432, ignore_annotation,
  int32_of, is_postgres_name, managed_by_label, managed_by_service_discovery, parse_int32,
  parse_magnitude, port, port_annotation, postgres_port, priority, priority_annotation, sole_port,
  source_service_label, value_of,
}
use pg_k8s_proxy.Registry.Resolve.{ApiError, not_found, conflict}
use pg_k8s_proxy.Registry.Client.{ServicePort, parse_digits}

-- A PostgresRoute as the API server stores it; `controller` is the UID of `GetControllerOf`.
pub record RouteObject : Type 0 where
  pub labels : Assoc Bytes Bytes
  pub controller : Option Bytes
  pub spec : PostgresRouteSpec

abbrev pub Store : Type 0
Store = Assoc NamespacedName RouteObject

abbrev pub generated_route_name : Bytes → Bytes
generated_route_name service_name = service_name ++ codes "-discovered"

abbrev pub generated_key : Service → NamespacedName
generated_key svc = record {
  namespace = svc.key.namespace;
  name = generated_route_name svc.key.name;
}

pub data DiscoveryError : Type 0 where
  managed_by_other : Bytes → DiscoveryError
  already_owned : DiscoveryError
  api : ApiError → DiscoveryError

-- `apierrors.IsConflict`.
unfoldable pub is_conflict : DiscoveryError → Bool
is_conflict (api conflict) = true
is_conflict _ = false

-- What `Reconcile` returns.
pub data Outcome : Type 0 where
  done requeue : Outcome
  failed : DiscoveryError → Outcome

abbrev pub Mutate : Type 0
Mutate = RouteObject → Result DiscoveryError RouteObject

-- The reconciler's fields and the libraries that it calls.
pub record Reconciler : Type 0 where
  pub get_service : NamespacedName → Result ApiError Service
  pub get_route : Store → NamespacedName → Result ApiError RouteObject
  pub delete_route : Store → NamespacedName → Option ApiError × Store
  pub create_or_update : Store → NamespacedName → Mutate → Option DiscoveryError × Store
  pub set_controller_reference : Service → RouteObject → Result DiscoveryError RouteObject
  pub matches : Assoc Bytes Bytes → Bool
  pub parse : Bytes → IntOrString
  pub database_annotation : Bytes

-- The object that `CreateOrUpdate` starts from where there is none.
abbrev pub new_object : RouteObject
new_object = record {
  labels = [];
  controller = none;
  spec = record {
    database = [];
    target_database = [];
    backend = record { type = []; service = none; address = none };
    tls = none;
    priority = pos 0;
  };
}

abbrev pub object_at : Store → NamespacedName → RouteObject
object_at store key = elim (lookup key store) [ none ↦ new_object | some o ↦ o ]

abbrev pub ignore_not_found : ApiError → Outcome
ignore_not_found not_found = done
ignore_not_found e = failed (api e)

module _ (r : Reconciler) where
  abbrev pub generated_labels : Service → Assoc Bytes Bytes → Assoc Bytes Bytes
  generated_labels svc labels =
      insert source_service_label svc.key.name
        (insert managed_by_label managed_by_service_discovery labels)

  abbrev pub generated_spec : Service → PostgresRouteSpec → PostgresRouteSpec
  generated_spec svc spec = record spec {
    database = database_name r.database_annotation svc;
    priority = priority svc;
    backend = record {
      type = backend_type_service;
      service =
          some (record {
            name = svc.key.name;
            namespace = svc.key.namespace;
            port = port r.parse svc;
          });
      address = none;
    };
  }

  abbrev pub generated : Service → RouteObject → RouteObject
  generated svc o = record o {
    labels = generated_labels svc o.labels;
    spec = generated_spec svc o.spec;
  }

  -- The function that is given to `CreateOrUpdate`.
  unfoldable pub mutate : Service → Mutate
  mutate svc o =
      let manager = value_of o.labels managed_by_label in
      if not (is_empty manager) && not (text_eq manager managed_by_service_discovery)
      then err (managed_by_other manager)
      else r.set_controller_reference svc (generated svc o)

  -- Whether this Service is the controller of the object.
  abbrev pub is_owner : Service → Option Bytes → Bool
  is_owner svc none = false
  is_owner svc (some uid) = text_eq uid svc.uid

  abbrev pub after_delete : Option ApiError × Store → Outcome × Store
  after_delete (none, store) = (done, store)
  after_delete (some e, store) = (ignore_not_found e, store)

  unfoldable pub delete_generated_route : Service → Store → Outcome × Store
  delete_generated_route svc store = elim (r.get_route store (generated_key svc)) [
    | err e ↦ (ignore_not_found e, store)
    | ok o ↦
        if text_eq (value_of o.labels managed_by_label) managed_by_service_discovery
          && is_owner svc o.controller
        then after_delete (r.delete_route store (generated_key svc))
        else (done, store)
  ]

  abbrev pub in_scope : Service → Bool
  in_scope svc =
      not svc.deleting
      && (r.matches svc.labels
          && not (text_eq (value_of svc.annotations ignore_annotation) (codes "true")))

  abbrev pub after_write : Option DiscoveryError × Store → Outcome × Store
  after_write (none, store) = (done, store)
  after_write (some e, store) = (if is_conflict e then requeue else failed e, store)

  -- `Reconcile` on the Service that was read.
  unfoldable pub reconcile_service : Service → Store → Outcome × Store
  reconcile_service svc store =
      if in_scope svc
      then after_write (r.create_or_update store (generated_key svc) (mutate svc))
      else delete_generated_route svc store

  unfoldable pub reconcile : NamespacedName → Store → Outcome × Store
  reconcile request store = elim (r.get_service request) [
    | err e ↦ (ignore_not_found e, store)
    | ok svc ↦ reconcile_service svc store
  ]

-- The stores answer alike.
abbrev pub Same : Store → Store → Type 0
Same before after = (j : NamespacedName) → lookup j after ≡ lookup j before

-- `after` has the object at the key, and for the rest is `before`.
abbrev pub Puts : NamespacedName → Option RouteObject → Store → Store → Type 0
Puts key o before after =
    (j : NamespacedName) → lookup j after ≡ (if name_eq key j then o else lookup j before)

-- What is documented of the libraries, for a cache that is up to date and writes that fail with no
-- effect.
pub record IsLawful (r : Reconciler) : Type 0 where
  -- Get returns the object that is stored.
  pub get_route_reads :
      (store : Store) (key : NamespacedName) (o : RouteObject)
      → r.get_route store key ≡ ok o
      → lookup key store ≡ some o
  -- It answers that there is none only where there is none, and so does Delete.
  pub get_route_misses :
      (store : Store) (key : NamespacedName)
      → r.get_route store key ≡ err not_found
      → lookup key store ≡ none
  pub delete_route_misses :
      (store : Store) (key : NamespacedName)
      → (r.delete_route store key).0 ≡ some not_found
      → lookup key store ≡ none
  pub delete_route_deletes :
      (store : Store) (key : NamespacedName)
      → (((r.delete_route store key).0 ≡ none) × Puts key none store (r.delete_route store key).1)
        ⊎ (((e : ApiError) × ((r.delete_route store key).0 ≡ some e))
            × Same store (r.delete_route store key).1)
  -- CreateOrUpdate writes what the function makes of the object, or fails.
  pub create_or_update_writes :
      (store : Store) (key : NamespacedName) (f : Mutate)
      → (((r.create_or_update store key f).0 ≡ none)
          × (o : RouteObject) × (f (object_at store key) ≡ ok o)
          × Puts key (some o) store (r.create_or_update store key f).1)
        ⊎ (((e : DiscoveryError) × ((r.create_or_update store key f).0 ≡ some e))
            × Same store (r.create_or_update store key f).1)
  -- SetControllerReference sets the controller and nothing else, only where no other object is the
  -- controller, and a second time changes nothing.
  pub set_controller_reference_sets :
      (svc : Service) (o o' : RouteObject)
      → r.set_controller_reference svc o ≡ ok o'
      → (o' ≡ record o { controller = some svc.uid })
        × (o.controller ≡ none ⊎ o.controller ≡ some svc.uid)
        × (r.set_controller_reference svc o' ≡ ok o')
