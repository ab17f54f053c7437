-- ===== src/Controller/Discovery/Current.antt =====
-- Whether the store has for a Service what it asks for.
use pg_k8s_proxy.Common.{
  ◌≡◌, refl, sym, ap, ◌∙◌, ◌⊎◌, ◌↔◌, inl, inr, Bytes, [], Option, none, some, true, false, ok, err,
  Assoc, lookup, lookup-insert, insert, bytes_keys, text_eq, text_eq_iff, Bool-cases, Result-cases,
  subst,
}
use pg_k8s_proxy.Api.{NamespacedName, name_keys, name_eq_iff}
use pg_k8s_proxy.Registry.Resolve.{ApiError, not_found, conflict, other}
use pg_k8s_proxy.Controller.Services.{
  Service, value_of, managed_by_label, managed_by_service_discovery, source_service_label,
}
use pg_k8s_proxy.Controller.Discovery.{
  RouteObject, Store, Reconciler, IsLawful, done, object_at, generated_key, generated_spec,
  generated_labels, mutate, is_owner, in_scope, after_delete, ignore_not_found,
  delete_generated_route, reconcile_service, reconcile,
}
use pg_k8s_proxy.Controller.Discovery.Events.{ServiceEvent, subject, matches_selector, on_event}
use pg_k8s_proxy.Controller.Discovery.Ownership.{
  IsGeneratedFor, after_write-store, after_delete-store,
}
use pg_k8s_proxy.Controller.Discovery.Stable.{
  owned, write_leaves, after_write_inv, reconcile-in_scope, labels_differ,
}

-- No route is left that discovery generated for the Service.
abbrev pub IsGone : Service → Store → Type 0
IsGone svc store =
    (o : RouteObject) → lookup (generated_key svc) store ≡ some o → IsGeneratedFor svc o → ⊥

-- A Service in scope has its generated route, as it is generated now; any other has none.
pub data IsCurrent (r : Reconciler) (svc : Service) (store : Store) : Type 0 where
  has_route :
      in_scope r svc ≡ true
      → (o : RouteObject) → lookup (generated_key svc) store ≡ some o
      → IsGeneratedFor svc o
      → o.spec ≡ generated_spec r svc o.spec
      → IsCurrent r svc store
  has_none : in_scope r svc ≡ false → IsGone svc store → IsCurrent r svc store

ignore_not_found_inv : (e : ApiError) → ignore_not_found e ≡ done → e ≡ not_found
ignore_not_found_inv not_found h = refl
ignore_not_found_inv conflict h = absurd (cc h)
ignore_not_found_inv (other t) h = absurd (cc h)

some_inj : {a b : RouteObject} → ◌≡◌ {A = Option RouteObject} (some a) (some b) → a ≡ b
some_inj h = cc h

module _ (r : Reconciler) (svc : Service) where
  generated_labels-managed_by_label :
      (labels : Assoc Bytes Bytes)
      → value_of (generated_labels r svc labels) managed_by_label ≡ managed_by_service_discovery
  generated_labels-managed_by_label labels =
      let managed = insert managed_by_label managed_by_service_discovery labels in
      let found : lookup managed_by_label (generated_labels r svc labels)
          ≡ some managed_by_service_discovery =
        (lookup-insert source_service_label managed_by_label svc.key.name managed
          ∙ rw labels_differ (
              lookup-insert managed_by_label managed_by_label managed_by_service_discovery labels
              ∙ rw ((text_eq_iff managed_by_label managed_by_label).1 refl) refl)) in
      ap (λ v. elim v [ none ↦ [] | some x ↦ x ]) found

  owned-IsGeneratedFor : (o : RouteObject) → IsGeneratedFor svc (owned r svc o)
  owned-IsGeneratedFor o = record {
    manager = generated_labels-managed_by_label o.labels;
    controller = refl;
  }

  after_delete_failed :
      (w : Option ApiError × Store) (e : ApiError)
      → w.0 ≡ some e
      → (after_delete r w).0 ≡ done
      → ignore_not_found e ≡ done
  after_delete_failed (none, store) e n h = absurd (cc n)
  after_delete_failed (some x, store) e n h =
      let is : x ≡ e = cc n in ap ignore_not_found (sym is) ∙ h

  not_managed :
      (found o : RouteObject)
      → text_eq (value_of found.labels managed_by_label) managed_by_service_discovery ≡ false
      → found ≡ o
      → IsGeneratedFor svc o
      → ⊥
  not_managed found o m is own = absurd (
      cc (
        (text_eq_iff (value_of found.labels managed_by_label) managed_by_service_discovery).1
            (ap (λ x. value_of x.labels managed_by_label) is ∙ own.manager),
        m,
      ))

  not_owned :
      (found o : RouteObject)
      → is_owner r svc found.controller ≡ false
      → found ≡ o
      → IsGeneratedFor svc o
      → ⊥
  not_owned found o w is own = absurd (
      cc (
        sym (ap (is_owner r svc) (ap (λ x. x.controller) is ∙ own.controller)) ∙ w,
        (text_eq_iff svc.uid svc.uid).1 refl,
      ))

  -- After a Delete that was done with.
  removed :
      (lawful : IsLawful r) (store : Store) (found : RouteObject)
      → lookup (generated_key svc) store ≡ some found
      → (after_delete r (r.delete_route store (generated_key svc))).0 ≡ done
      → IsGone svc (r.delete_route store (generated_key svc)).1
  removed lawful store found read h = elim (lawful.delete_route_deletes store (generated_key svc)) [
    | inl (n, puts) ↦
        let here = (name_eq_iff (generated_key svc) (generated_key svc)).1 refl in
        let empty : lookup (generated_key svc) (r.delete_route store (generated_key svc)).1 ≡ none =
          puts (generated_key svc) ∙ rw here refl in
        λ o l own. absurd (cc (l, empty))
    | inr ((e, n), same) ↦
        let missing =
          ignore_not_found_inv e
            (after_delete_failed (r.delete_route store (generated_key svc)) e n h) in
        absurd
          (cc (read, lawful.delete_route_misses store (generated_key svc) (n ∙ ap some missing)))
  ]

  delete-IsGone :
      (lawful : IsLawful r) (store : Store)
      → (delete_generated_route r svc store).0 ≡ done
      → IsGone svc (delete_generated_route r svc store).1
  unfolding delete_generated_route
  delete-IsGone lawful store h = elim (Result-cases (r.get_route store (generated_key svc))) [
    | inr (e, g) ↦
        let missing = ignore_not_found_inv e (rw (g, delete_generated_route) at h) in
        rw (g, delete_generated_route)
          (λ o l own.
            absurd (cc (l, lawful.get_route_misses store (generated_key svc) (g ∙ ap err missing))))
    | inl (found, g) ↦
        let read = lawful.get_route_reads store (generated_key svc) found g in
        elim (Bool-cases
          (text_eq (value_of found.labels managed_by_label) managed_by_service_discovery)) [
            | inr m ↦
                rw (g, delete_generated_route)
                  (simp m (λ o l own. not_managed found o m (some_inj (sym read ∙ l)) own))
            | inl m ↦ elim (Bool-cases (is_owner r svc found.controller)) [
              | inr w ↦
                  rw (g, delete_generated_route)
                    (simp (m, w) (λ o l own. not_owned found o w (some_inj (sym read ∙ l)) own))
              | inl w ↦
                  rw (g, delete_generated_route)
                    (simp (m, w)
                      (rw (after_delete-store r lawful (r.delete_route store (generated_key svc))) (
                        removed lawful store found read
                          (simp (m, w) at (rw (g, delete_generated_route) at h)))))
            ]
          ]
  ]

  -- A reconcile of the Service that is done with leaves the store current for it.
  reconcile-IsCurrent :
      (lawful : IsLawful r) (request : NamespacedName) (store : Store)
      → r.get_service request ≡ ok svc
      → (reconcile r request store).0 ≡ done
      → IsCurrent r svc (reconcile r request store).1
  unfolding reconcile reconcile_service
  reconcile-IsCurrent lawful request store g h = elim (Bool-cases (in_scope r svc)) [
    | inr s ↦
        rw (g, reconcile)
          (simp s (has_none s (delete-IsGone lawful store (simp s at (rw (g, reconcile) at h)))))
    | inl s ↦
        let once = reconcile-in_scope r request svc store g s in
        let write = r.create_or_update store (generated_key svc) (mutate r svc) in
        let n = after_write_inv r svc write (sym (ap (λ w. w.0) once) ∙ h) in
        subst (IsCurrent r svc) (sym (ap (λ w. w.1) once ∙ after_write-store r lawful write)) (
          has_route s (owned r svc (object_at store (generated_key svc)))
            (write_leaves r svc lawful store n)
            (owned-IsGeneratedFor (object_at store (generated_key svc))) refl)
  ]

-- With libraries that do what is documented of them, after an event of a Service, which the client
-- reads as the event has it, that is done with without an error, the store is current for the
-- Service, its generated route there and as it would be generated now or else gone, exactly if the
-- labels that the event carries match the selector or the store was current before. An update that
-- takes the label away leaves the generated route in place.
pub on_event-IsCurrent :
    (r : Reconciler) (event : ServiceEvent) (store : Store)
    → IsLawful r
    → r.get_service (subject event).key ≡ ok (subject event)
    → (on_event r event store).0 ≡ done
    → IsCurrent r (subject event) (on_event r event store).1
      ↔ ((r.matches (subject event).labels ≡ true) ⊎ IsCurrent r (subject event) store)
unfolding on_event matches_selector
on_event-IsCurrent r event store lawful g h = elim (Bool-cases (r.matches (subject event).labels)) [
  | inl m ↦
      let current =
        reconcile-IsCurrent r (subject event) lawful (subject event).key store g (simp m at h) in
      simp m ((λ c. inl refl), λ c. current)
  | inr m ↦ simp m ((λ c. inr c), λ c. elim c [ inl t ↦ absurd (cc t) | inr before ↦ before ])
]
