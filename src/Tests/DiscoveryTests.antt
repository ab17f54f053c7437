-- ===== src/Tests/DiscoveryTests.antt =====
-- Discovery on a store that is an association list, with one Service.
use pg_k8s_proxy.Common.{
  ◌↔◌, ◌≡◌, refl, sym, ap, subst, ◌⊎◌, inl, inr, Bytes, [], ◌∷◌, Option, some, none, true, false,
  Result, ok, err, codes, text_eq, text_eq_iff, lookup, insert, erase, lookup-insert, lookup-erase,
  bytes_keys, if◌then◌else◌, Bool-cases, Result-cases,
}
use pg_k8s_proxy.Api.{NamespacedName, name_keys, name_eq, string}
use pg_k8s_proxy.Registry.Resolve.{ApiError, not_found}
use pg_k8s_proxy.Tests.ClusterTests.{two_ports}
use pg_k8s_proxy.Controller.Services.{Service}
use pg_k8s_proxy.Controller.Discovery.{
  RouteObject, Store, Reconciler, IsLawful, DiscoveryError, already_owned, object_at, generated_key,
  reconcile, reconcile_service, mutate, Same, done, in_scope,
}
use pg_k8s_proxy.Controller.Discovery.Ownership.{Effect, reconcile-Effect}
use pg_k8s_proxy.Controller.Discovery.Stable.{reconcile_stable}
use pg_k8s_proxy.Controller.Discovery.Events.{ServiceEvent, updated, matches_selector, on_event}
use pg_k8s_proxy.Controller.Discovery.Current.{IsCurrent, on_event-IsCurrent}

abbrev pub test_service : Service
test_service = record {
  key = record { namespace = codes "apps"; name = codes "db" };
  uid = codes "1";
  labels = [];
  annotations = [];
  ports = two_ports;
  deleting = false;
}

-- SetControllerReference.
abbrev take_control : Service → RouteObject → Option Bytes → Result DiscoveryError RouteObject
take_control svc o none = ok (record o { controller = some svc.uid })
take_control svc o (some uid) =
    if text_eq uid svc.uid then ok (record o { controller = some svc.uid }) else err already_owned

abbrev read_route : Option RouteObject → Result ApiError RouteObject
read_route none = err not_found
read_route (some o) = ok o

abbrev write_route :
    Store → NamespacedName → Result DiscoveryError RouteObject → Option DiscoveryError × Store
write_route store key (ok o) = (none, insert key o store)
write_route store key (err e) = (some e, store)

abbrev pub test_reconciler : Reconciler
test_reconciler = record {
  get_service = λ _. ok test_service;
  get_route = λ store key. read_route (lookup key store);
  delete_route = λ store key. (none, erase key store);
  create_or_update = λ store key f. write_route store key (f (object_at store key));
  set_controller_reference = λ svc o. take_control svc o o.controller;
  matches = λ _. true;
  parse = string;
  database_annotation = codes "pgproxy.io/database-name";
}

read_route_inv : (l : Option RouteObject) (o : RouteObject) → read_route l ≡ ok o → l ≡ some o
read_route_inv none o h = absurd (cc h)
read_route_inv (some p) o h = cc h

read_route_missing : (l : Option RouteObject) → read_route l ≡ err not_found → l ≡ none
read_route_missing none h = refl
read_route_missing (some o) h = absurd (cc h)

take_control_inv :
    (svc : Service) (o o' : RouteObject) (c : Option Bytes)
    → take_control svc o c ≡ ok o'
    → (o' ≡ record o { controller = some svc.uid }) × ((c ≡ none) ⊎ (c ≡ some svc.uid))
take_control_inv svc o o' none h = (cc h, inl refl)
take_control_inv svc o o' (some uid) h = elim (Bool-cases (text_eq uid svc.uid)) [
  | inl e ↦ (cc (rw e at h), inr (ap some ((text_eq_iff uid svc.uid).0 e)))
  | inr e ↦ absurd (cc (rw e at h))
]

keeps_control :
    (svc : Service) (o : RouteObject)
    → take_control svc (record o { controller = some svc.uid }) (some svc.uid)
      ≡ ok (record o { controller = some svc.uid })
keeps_control svc o = rw ((text_eq_iff svc.uid svc.uid).1 refl) refl

pub test_reconciler-IsLawful : IsLawful test_reconciler
test_reconciler-IsLawful = record {
  get_route_reads = λ store key o h. read_route_inv (lookup key store) o h;
  get_route_misses = λ store key h. read_route_missing (lookup key store) h;
  delete_route_misses = λ store key h. absurd (cc h);
  delete_route_deletes = λ store key. inl (refl, λ j. lookup-erase key j store);
  create_or_update_writes = λ store key f. elim (Result-cases (f (object_at store key))) [
    | inl (o, e) ↦ rw e (inl (refl, o, refl, λ j. lookup-insert key j o store))
    | inr (x, e) ↦ rw e (inr ((x, refl), λ j. refl))
  ];
  set_controller_reference_sets = λ svc o o' h.
      let (is, was) = take_control_inv svc o o' o.controller h in
      (is, was, subst (λ x. take_control svc x x.controller ≡ ok x) (sym is) (keeps_control svc o));
}

abbrev request : NamespacedName
request = test_service.key

-- A hand-written route under the generated name, without a manager and without a controller.
abbrev written_by_hand : Store
written_by_hand =
    (
      generated_key test_service,
      record (object_at [] (generated_key test_service)) {
        labels = (codes "team", codes "orders") ∷ [];
      },
    )
    ∷ []

-- It is adopted, and its database name is lost.
adopts : (reconcile test_reconciler request written_by_hand).0 ≡ done
unfolding reconcile reconcile_service mutate lookup text_eq name_eq
adopts = refl

reconcile-Effect_example :
    Effect test_reconciler request written_by_hand
      (reconcile test_reconciler request written_by_hand).1
reconcile-Effect_example =
    reconcile-Effect test_reconciler test_reconciler-IsLawful request written_by_hand

pub in_scope_test : in_scope test_reconciler test_service ≡ true
unfolding lookup text_eq
in_scope_test = refl

reconcile_stable_example :
    Same
      (reconcile test_reconciler request written_by_hand).1
      (reconcile test_reconciler request (reconcile test_reconciler request written_by_hand).1).1
reconcile_stable_example =
    reconcile_stable test_reconciler request test_service written_by_hand test_reconciler-IsLawful
      refl in_scope_test adopts

abbrev label_change : ServiceEvent
label_change =
    updated (record test_service { labels = (codes "app", codes "db") ∷ [] }) test_service

label_change_done : (on_event test_reconciler label_change written_by_hand).0 ≡ done
unfolding on_event matches_selector reconcile reconcile_service mutate lookup text_eq name_eq
label_change_done = refl

on_event-IsCurrent_example :
    IsCurrent test_reconciler test_service (on_event test_reconciler label_change written_by_hand).1
    ↔ ((test_reconciler.matches test_service.labels ≡ true)
        ⊎ IsCurrent test_reconciler test_service written_by_hand)
on_event-IsCurrent_example =
    on_event-IsCurrent test_reconciler label_change written_by_hand test_reconciler-IsLawful refl
      label_change_done
