-- ===== src/Controller/Discovery/Stable.antt =====
-- A reconcile that follows one that wrote the generated route.
use pg_k8s_proxy.Common.{
  ◌≡◌, refl, sym, ap, ◌∙◌, inl, inr, Bytes, Option, none, some, true, false, ok, Assoc, lookup,
  lookup-insert, insert-same, insert, bytes_keys, text_eq, text_eq_iff, Bool-cases, arith,
}
use pg_k8s_proxy.Api.{NamespacedName, name_keys, name_eq, name_eq_iff}
use pg_k8s_proxy.Controller.Services.{
  Service, managed_by_label, managed_by_service_discovery, source_service_label,
}
use pg_k8s_proxy.Controller.Discovery.{
  RouteObject, Store, Reconciler, IsLawful, Puts, Same, done, DiscoveryError, object_at,
  generated_key, generated, generated_labels, mutate, in_scope, after_write, new_object,
  reconcile_service, reconcile,
}
use pg_k8s_proxy.Controller.Discovery.Ownership.{write_effect, after_write-store, mutate_inv}

pub labels_differ : text_eq source_service_label managed_by_label ≡ false
unfolding text_eq
labels_differ = refl

object_at-found :
    (store : Store) (key : NamespacedName) {o : RouteObject}
    → lookup key store ≡ some o
    → object_at store key ≡ o
object_at-found store key h = ap (λ x. elim x [ none ↦ new_object | some o ↦ o ]) h

module _ (r : Reconciler) (svc : Service) where
  -- The labels, written a second time.
  generated_labels_idem :
      (labels : Assoc Bytes Bytes)
      → generated_labels r svc (generated_labels r svc labels) ≡ generated_labels r svc labels
  generated_labels_idem labels =
      let once = generated_labels r svc labels in
      let managed = insert managed_by_label managed_by_service_discovery labels in
      ap (insert source_service_label svc.key.name) (
        insert-same managed_by_label managed_by_service_discovery once (
          lookup-insert source_service_label managed_by_label svc.key.name managed
          ∙ rw labels_differ (
              lookup-insert managed_by_label managed_by_label managed_by_service_discovery labels
              ∙ rw ((text_eq_iff managed_by_label managed_by_label).1 refl) refl)))
      ∙ insert-same source_service_label svc.key.name once (
          lookup-insert source_service_label source_service_label svc.key.name managed
          ∙ rw ((text_eq_iff source_service_label source_service_label).1 refl) refl)

  -- The object that is written.
  abbrev pub owned : RouteObject → RouteObject
  owned o = record (generated r svc o) { controller = some svc.uid }

  owned_idem : (o : RouteObject) → owned (owned o) ≡ owned o
  owned_idem o = ap (λ l. record (owned o) { labels = l }) (generated_labels_idem o.labels)

  Puts-Same :
      (o : RouteObject) (before after : Store)
      → lookup (generated_key svc) before ≡ some (owned o)
      → Puts (generated_key svc) (some (owned (object_at before (generated_key svc)))) before after
      → Same before after
  Puts-Same o before after l puts j = puts j ∙ elim (Bool-cases (name_eq (generated_key svc) j)) [
    | inr e ↦ rw e refl
    | inl e ↦ rw e (
        ap (λ x. some (owned x)) (object_at-found before (generated_key svc) l)
        ∙ ap some (owned_idem o)
        ∙ sym l
        ∙ ap (λ k. lookup k before) ((name_eq_iff (generated_key svc) j).0 e))
  ]

  pub after_write_inv :
      (w : Option DiscoveryError × Store) → (after_write r w).0 ≡ done → w.0 ≡ none
  after_write_inv (none, store) h = refl
  after_write_inv (some e, store) h = absurd (ground arith)

  -- What a successful write left at the key.
  pub write_leaves :
      (lawful : IsLawful r) (store : Store)
      → (r.create_or_update store (generated_key svc) (mutate r svc)).0 ≡ none
      → lookup (generated_key svc) (r.create_or_update store (generated_key svc) (mutate r svc)).1
        ≡ some (owned (object_at store (generated_key svc)))
  write_leaves lawful store n =
      elim (lawful.create_or_update_writes store (generated_key svc) (mutate r svc)) [
        | inr ((e, h), same) ↦ absurd (cc (n, h))
        | inl (h, o, f, puts) ↦
            puts (generated_key svc)
            ∙ rw ((name_eq_iff (generated_key svc) (generated_key svc)).1 refl)
                (ap some ((mutate_inv r lawful svc (object_at store (generated_key svc)) f).1))
      ]

  write_stable :
      (lawful : IsLawful r) (store : Store)
      → in_scope r svc ≡ true
      → (r.create_or_update store (generated_key svc) (mutate r svc)).0 ≡ none
      → let once = (r.create_or_update store (generated_key svc) (mutate r svc)).1 in
        Same once (r.create_or_update once (generated_key svc) (mutate r svc)).1
  write_stable lawful store s n =
      let once = (r.create_or_update store (generated_key svc) (mutate r svc)).1 in
      elim (write_effect r lawful svc once s) [
        | inl same ↦ same
        | inr w ↦
            Puts-Same (object_at store (generated_key svc)) once _ (write_leaves lawful store n)
              w.puts
      ]

-- A reconcile of a Service in scope is one write.
pub reconcile-in_scope :
    (r : Reconciler) (request : NamespacedName) (svc : Service) (store : Store)
    → r.get_service request ≡ ok svc
    → in_scope r svc ≡ true
    → reconcile r request store
      ≡ after_write r (r.create_or_update store (generated_key svc) (mutate r svc))
unfolding reconcile reconcile_service
reconcile-in_scope r request svc store g s = rw (g, reconcile) (simp s refl)

-- With libraries that do what is documented of them, once a Service in scope has been reconciled
-- with no error, a second reconcile of the same Service changes no route, whether it succeeds or
-- fails.
pub reconcile_stable :
    (r : Reconciler) (request : NamespacedName) (svc : Service) (store : Store)
    → IsLawful r
    → r.get_service request ≡ ok svc
    → in_scope r svc ≡ true
    → (reconcile r request store).0 ≡ done
    → Same (reconcile r request store).1 (reconcile r request (reconcile r request store).1).1
reconcile_stable r request svc store lawful g s h j =
    let write : Store → Option DiscoveryError × Store =
      λ st. r.create_or_update st (generated_key svc) (mutate r svc) in
    let once = reconcile-in_scope r request svc store g s in
    let first = ap (λ w. w.1) once ∙ after_write-store r lawful (write store) in
    let n = after_write_inv r svc (write store) (sym (ap (λ w. w.0) once) ∙ h) in
    ap (λ st. lookup j (reconcile r request st).1) first
    ∙ ap (λ w. lookup j w.1) (reconcile-in_scope r request svc (write store).1 g s)
    ∙ ap (lookup j) (after_write-store r lawful (write (write store).1))
    ∙ write_stable r svc lawful store s n j
    ∙ ap (lookup j) (sym first)
