-- ===== src/Controller/Discovery/Ownership.antt =====
-- Which routes a reconcile may write or delete, and what it writes.
use pg_k8s_proxy.Common.{
  ◌≡◌, refl, sym, ap, ◌⊎◌, inl, inr, Bytes, [], Option, none, some, true, false, ok, lookup,
  bytes_keys, is_empty, text_eq, text_eq_iff, is_empty_inv, Bool-cases, Result-cases,
}
use pg_k8s_proxy.Registry.Resolve.{ApiError}
use pg_k8s_proxy.Api.{NamespacedName, name_keys}
use pg_k8s_proxy.Controller.Services.{
  Service, value_of, managed_by_label, managed_by_service_discovery,
}
use pg_k8s_proxy.Controller.Discovery.{
  RouteObject, Store, Reconciler, IsLawful, Puts, Same, DiscoveryError, object_at, generated_key,
  generated, mutate, is_owner, in_scope, after_write, after_delete, delete_generated_route,
  reconcile_service, reconcile,
}

-- A route that discovery may adopt: no other manager is named, and no other controller owns it.
pub record IsAdoptable (svc : Service) (o : RouteObject) : Type 0 where
  pub manager :
      (value_of o.labels managed_by_label ≡ [])
      ⊎ (value_of o.labels managed_by_label ≡ managed_by_service_discovery)
  pub controller : (o.controller ≡ none) ⊎ (o.controller ≡ some svc.uid)

-- The route is one that discovery generated for this Service.
pub record IsGeneratedFor (svc : Service) (o : RouteObject) : Type 0 where
  pub manager : value_of o.labels managed_by_label ≡ managed_by_service_discovery
  pub controller : o.controller ≡ some svc.uid

-- The two writes: of the generated route, and its removal.
pub record Writes (r : Reconciler) (svc : Service) (before after : Store) : Type 0 where
  pub wanted : in_scope r svc ≡ true
  pub adoptable : IsAdoptable svc (object_at before (generated_key svc))
  pub puts :
      Puts
        (generated_key svc)
        (some (record (generated r svc (object_at before (generated_key svc))) {
          controller = some svc.uid;
        }))
        before
        after

pub record Removes (r : Reconciler) (svc : Service) (before after : Store) : Type 0 where
  pub unwanted : in_scope r svc ≡ false
  pub route : RouteObject
  pub found : lookup (generated_key svc) before ≡ some route
  pub own : IsGeneratedFor svc route
  pub puts : Puts (generated_key svc) none before after

abbrev pub Effect : Reconciler → NamespacedName → Store → Store → Type 0
Effect r request before after =
    Same before after
    ⊎ ((svc : Service) × (r.get_service request ≡ ok svc)
        × (Writes r svc before after ⊎ Removes r svc before after))

module _ (r : Reconciler) (lawful : IsLawful r) where
  pub mutate_inv :
      (svc : Service) (o : RouteObject) {o' : RouteObject}
      → mutate r svc o ≡ ok o'
      → IsAdoptable svc o
        × (o' ≡ record (generated r svc o) { controller = some svc.uid })
        × (r.set_controller_reference svc o' ≡ ok o')
  unfolding mutate
  mutate_inv svc o {o'} h = elim (Bool-cases (is_empty (value_of o.labels managed_by_label))) [
    | inl e ↦
        let s =
          lawful.set_controller_reference_sets svc (generated r svc o) o' (simp (e, mutate) at h) in
        (record { manager = inl (is_empty_inv _ e); controller = s.1 }, s.0, s.2)
    | inr e ↦
        elim (Bool-cases
          (text_eq (value_of o.labels managed_by_label) managed_by_service_discovery)) [
            | inl m ↦
                let s =
                  lawful.set_controller_reference_sets svc (generated r svc o) o'
                    (simp (e, m, mutate) at h) in
                (
                  record {
                    manager = inr ((text_eq_iff _ managed_by_service_discovery).0 m);
                    controller = s.1;
                  },
                  s.0,
                  s.2,
                )
            | inr m ↦ absurd (cc (simp (e, m, mutate) at h))
          ]
  ]

  pub after_write-store : (w : Option DiscoveryError × Store) → (after_write r w).1 ≡ w.1
  after_write-store (none, store) = refl
  after_write-store (some e, store) = refl

  pub after_delete-store : (w : Option ApiError × Store) → (after_delete r w).1 ≡ w.1
  after_delete-store (none, store) = refl
  after_delete-store (some e, store) = refl

  pub write_effect :
      (svc : Service) (store : Store)
      → in_scope r svc ≡ true
      → Same store (r.create_or_update store (generated_key svc) (mutate r svc)).1
        ⊎ Writes r svc store (r.create_or_update store (generated_key svc) (mutate r svc)).1
  write_effect svc store s =
      elim (lawful.create_or_update_writes store (generated_key svc) (mutate r svc)) [
        | inr (e, same) ↦ inl same
        | inl (e, o, f, puts) ↦
            let (adoptable, is, again) = mutate_inv svc (object_at store (generated_key svc)) f in
            inr (record { wanted = s; adoptable = adoptable; puts = rw (sym is) puts })
      ]

  is_owner_inv : (svc : Service) (c : Option Bytes) → is_owner r svc c ≡ true → c ≡ some svc.uid
  is_owner_inv svc none h = absurd (cc h)
  is_owner_inv svc (some uid) h = ap some ((text_eq_iff uid svc.uid).0 h)

  delete_effect :
      (svc : Service) (store : Store)
      → in_scope r svc ≡ false
      → Same store (delete_generated_route r svc store).1
        ⊎ Removes r svc store (delete_generated_route r svc store).1
  unfolding delete_generated_route
  delete_effect svc store s = elim (Result-cases (r.get_route store (generated_key svc))) [
    | inr (e, g) ↦ rw (g, delete_generated_route) (inl (λ j. refl))
    | inl (o, g) ↦
        elim (Bool-cases
          (text_eq (value_of o.labels managed_by_label) managed_by_service_discovery)) [
            | inr m ↦ rw (g, delete_generated_route) (simp m (inl (λ j. refl)))
            | inl m ↦ elim (Bool-cases (is_owner r svc o.controller)) [
              | inr w ↦ rw (g, delete_generated_route) (simp (m, w) (inl (λ j. refl)))
              | inl w ↦
                  rw (g, delete_generated_route)
                    (simp (m, w)
                      (rw (after_delete-store (r.delete_route store (generated_key svc)))
                        (elim (lawful.delete_route_deletes store (generated_key svc)) [
                          | inr (e, same) ↦ inl same
                          | inl (e, puts) ↦ inr (record {
                            unwanted = s;
                            route = o;
                            found = lawful.get_route_reads store (generated_key svc) o g;
                            own = record {
                              manager = (text_eq_iff _ managed_by_service_discovery).0 m;
                              controller = is_owner_inv svc o.controller w;
                            };
                            puts = puts;
                          })
                        ])))
            ]
          ]
  ]

  -- With libraries that do what is documented of them, whatever a reconcile meets and however it
  -- ends, the store answers as before, or there is one Service, the one that was asked for, and
  -- only its generated route differs: for a Service in scope it is the generated route, under its
  -- labels and its controller, and the route that stood there named no other manager and had no
  -- other controller; for a Service out of scope it is gone, and it was a route that discovery had
  -- generated for this very Service.
  pub reconcile-Effect :
      (request : NamespacedName) (store : Store)
      → Effect r request store (reconcile r request store).1
  unfolding reconcile reconcile_service
  reconcile-Effect request store = elim (Result-cases (r.get_service request)) [
    | inr (e, g) ↦ rw (g, reconcile) (inl (λ j. refl))
    | inl (svc, g) ↦ elim (Bool-cases (in_scope r svc)) [
      | inl s ↦
          rw (g, reconcile)
            (simp
              (s, after_write-store (r.create_or_update store (generated_key svc) (mutate r svc)))
              (elim (write_effect svc store s) [
                | inl same ↦ inl same
                | inr w ↦ inr (svc, refl, inl w)
              ]))
      | inr s ↦
          rw (g, reconcile)
            (simp s (elim (delete_effect svc store s) [
              | inl same ↦ inl same
              | inr w ↦ inr (svc, refl, inr w)
            ]))
    ]
  ]
