-- ===== src/Controller/Notify/Covers.antt =====
-- Whom a rebuild tells of a change.
use pg_k8s_proxy.Common.{
  ◌≡◌, ◌≢◌, refl, sym, ap, ap₂, subst, ◌∙◌, ◌⊎◌, inl, inr, Option, none, some, List, [], ◌∷◌, Bool,
  true, false, not, ◌&&◌, ◌||◌, Assoc, lookup, text_eq, text_eq_iff, Bool-cases, arith,
}
use pg_k8s_proxy.Api.{NamespacedName, name_keys, name_eq, name_eq_iff, PostgresRoute}
use pg_k8s_proxy.Registry.Resolve.{ResolveError, is_not_found}
use pg_k8s_proxy.Registry.Build.{Decision, Snapshot}
use pg_k8s_proxy.Controller.Status.{
  Library, RouteStatus, desired_status, apply_conditions, accepted_condition, resolved_condition,
  programmed_condition, resolved_with,
}
use pg_k8s_proxy.Controller.Notify.{
  eq_bool, error_message, decision_changed, is_news, notify_loop, notify_changed,
}
use pg_k8s_proxy.Controller.Notify.Reasons.{
  head_of, reason_from, text_of, reason-text, text_not_empty, is_missing,
}

eq_bool_inv : (a b : Bool) → eq_bool a b ≡ true → a ≡ b
unfolding eq_bool
eq_bool_inv true b h = sym h
eq_bool_inv false true h = absurd (cc h)
eq_bool_inv false false h = refl

-- What equal decisions agree in.
pub record Agree (lib : Library) (before now : Decision) : Type 0 where
  pub database : before.database ≡ now.database
  pub accepted : before.accepted ≡ now.accepted
  pub conflicts_with : before.conflicts_with ≡ now.conflicts_with
  pub endpoint : before.endpoint ≡ now.endpoint
  pub message : error_message lib before.resolve_err ≡ error_message lib now.resolve_err

or_not_inv : (a b : Bool) → not a || b ≡ false → (a ≡ true) × (b ≡ false)
or_not_inv true b h = (refl, h)
or_not_inv false b h = absurd (cc h)

decision_changed_inv :
    (lib : Library) (before now : Decision)
    → decision_changed lib before now ≡ false
    → Agree lib before now
unfolding decision_changed
decision_changed_inv lib before now h =
    elim (Bool-cases (
      not (text_eq before.database now.database)
      || (not (eq_bool before.accepted now.accepted)
          || (not (name_eq before.conflicts_with now.conflicts_with)
              || not (text_eq before.endpoint now.endpoint))))) [
                | inl e ↦ absurd (cc (simp (e, decision_changed) at h))
                | inr e ↦
                    let (d, e1) = or_not_inv _ _ e in
                    let (a, e2) = or_not_inv _ _ e1 in
                    let (c, e3) = or_not_inv _ _ e2 in
                    record {
                      database = (text_eq_iff before.database now.database).0 d;
                      accepted = eq_bool_inv before.accepted now.accepted a;
                      conflicts_with = (name_eq_iff before.conflicts_with now.conflicts_with).0 c;
                      endpoint = (text_eq_iff before.endpoint now.endpoint).0 (ground arith);
                      message =
                          (text_eq_iff (error_message lib before.resolve_err)
                              (error_message lib now.resolve_err)).0
                            (ground (arith, simp (e, decision_changed) at h));
                    }
              ]

module _ (lib : Library) (route : PostgresRoute) (s : RouteStatus) where
  -- Two errors of one text are reported alike.
  resolved_alike :
      (d : Decision) (e e' : ResolveError)
      → text_of lib e ≡ text_of lib e'
      → is_not_found e ≡ is_not_found e'
      → resolved_condition lib route.meta.generation (record d { resolve_err = some e })
        ≡ resolved_condition lib route.meta.generation (record d { resolve_err = some e' })
  resolved_alike d e e' h m = elim (Bool-cases d.accepted) [
    | inl a ↦ rw a (
        ap₂ (resolved_with lib route.meta.generation (record d { resolve_err = some e }) false)
          (reason-text lib e
            ∙ ap₂ (λ t missing. reason_from (head_of t) missing) h m
            ∙ sym (reason-text lib e'))
          h)
    | inr a ↦ rw a refl
  ]

  error_alike :
      (d : Decision) (x y : Option ResolveError)
      → error_message lib x ≡ error_message lib y
      → is_missing x ≡ is_missing y
      → desired_status lib route (record d { resolve_err = x }) s
        ≡ desired_status lib route (record d { resolve_err = y }) s
  unfolding error_message desired_status apply_conditions
  error_alike d none none h m = refl
  error_alike d none (some e) h m = absurd (text_not_empty lib e (sym h))
  error_alike d (some e) none h m = absurd (text_not_empty lib e h)
  error_alike d (some e) (some e') h m =
      let failed = record d { resolve_err = some e } in
      ap
        (λ r. record (desired_status lib route failed s) {
          conditions =
              lib.set_status_condition
                (lib.set_status_condition
                  (lib.set_status_condition s.conditions
                    (accepted_condition lib route.meta.generation failed))
                  r)
                (programmed_condition lib route.meta.generation failed);
        })
        (resolved_alike d e e' h m)

  Agree-desired_status :
      (before now : Decision)
      → Agree lib before now
      → is_missing before.resolve_err ≡ is_missing now.resolve_err
      → desired_status lib route before s ≡ desired_status lib route now s
  Agree-desired_status before now a m =
      error_alike before before.resolve_err now.resolve_err a.message m
      ∙ ap (λ d. desired_status lib route d s)
          (λ i. record {
            database = a.database i;
            accepted = a.accepted i;
            conflicts_with = a.conflicts_with i;
            endpoint = a.endpoint i;
            resolve_err = now.resolve_err;
          })

-- The key is in the list.
pub data Notified (key : NamespacedName) : List NamespacedName → Type 0 where
  here : {ks : List NamespacedName} → Notified key (key ∷ ks)
  there : {j : NamespacedName} {ks : List NamespacedName} → Notified key ks → Notified key (j ∷ ks)

notify_loop-here :
    (lib : Library) (has_room : NamespacedName → Bool)
    (previous rest : Assoc NamespacedName Decision) (key : NamespacedName) (now : Decision)
    → is_news lib (lookup key previous) now ≡ true
    → has_room key ≡ true
    → Notified key (notify_loop lib has_room previous ((key, now) ∷ rest))
unfolding notify_loop
notify_loop-here lib has_room previous rest key now n r = simp (n, r, notify_loop) here

notify_loop-Notified :
    (lib : Library) (has_room : NamespacedName → Bool)
    (previous current : Assoc NamespacedName Decision) (key : NamespacedName) {now : Decision}
    → lookup key current ≡ some now
    → is_news lib (lookup key previous) now ≡ true
    → has_room key ≡ true
    → Notified key (notify_loop lib has_room previous current)
unfolding lookup notify_loop
notify_loop-Notified lib has_room previous [] key h n r = absurd (cc h)
notify_loop-Notified lib has_room previous ((j, d) ∷ rest) key {now} h n r =
    elim (Bool-cases (name_eq j key)) [
      | inl q ↦
          let is : d ≡ now = cc (simp (q, lookup) at h) in
          let key_is = (name_eq_iff j key).0 q in
          subst (λ k. Notified key (notify_loop lib has_room previous ((k, d) ∷ rest))) (sym key_is)
            (notify_loop-here lib has_room previous rest key d
              (ap (is_news lib (lookup key previous)) is ∙ n) r)
      | inr q ↦
          let more =
            notify_loop-Notified lib has_room previous rest key (simp (q, lookup) at h) n r in
          elim (Bool-cases (is_news lib (lookup j previous) d && has_room j)) [
            | inl t ↦ simp (t, notify_loop) (there more)
            | inr t ↦ simp (t, notify_loop) more
          ]
    ]

-- The two decisions differ in one thing alone: their errors have the same text, and a "not found"
-- of the API is behind one of them only.
pub record IsHidden (lib : Library) (before now : Decision) : Type 0 where
  pub agree : Agree lib before now
  pub apart : is_missing before.resolve_err ≢ is_missing now.resolve_err

eq_bool_apart : (a b : Bool) → eq_bool a b ≡ false → a ≢ b
unfolding eq_bool
eq_bool_apart true b h e = absurd (cc (e, h))
eq_bool_apart false true h e = absurd (cc e)
eq_bool_apart false false h e = absurd (cc h)

-- A route in the new snapshot whose event finds room in the channel is notified, if it had no
-- decision before, or if the status that is wanted for it, over any status that it may have, is not
-- the one that was wanted before; unless the two decisions differ in one thing alone, that their
-- errors have the same text, where a "not found" of the API is behind one of them only.
pub notify_changed-Notified :
    (lib : Library) (has_room : NamespacedName → Bool) (previous current : Snapshot)
    (key : NamespacedName) (route : PostgresRoute) (s : RouteStatus) (now : Decision)
    → lookup key current.decisions ≡ some now
    → has_room key ≡ true
    → (lookup key previous.decisions ≡ none)
      ⊎ ((before : Decision) × (lookup key previous.decisions ≡ some before)
          × (desired_status lib route before s ≢ desired_status lib route now s))
    → Notified key (notify_changed lib (some has_room) previous current)
      ⊎ ((before : Decision) × (lookup key previous.decisions ≡ some before)
          × IsHidden lib before now)
unfolding notify_changed is_news
notify_changed-Notified lib has_room previous current key route s now h r (inl l) = inl (
    notify_loop-Notified lib has_room previous.decisions current.decisions key h
      (rw (l, is_news) refl) r)
notify_changed-Notified lib has_room previous current key route s now h r
      (inr (before, l, differs)) =
    elim (Bool-cases (decision_changed lib before now)) [
      | inl c ↦ inl (
          notify_loop-Notified lib has_room previous.decisions current.decisions key h
            (rw (l, is_news) c) r)
      | inr c ↦
          let a = decision_changed_inv lib before now c in
          elim (Bool-cases (eq_bool (is_missing before.resolve_err) (is_missing now.resolve_err))) [
            | inl m ↦
                absurd (differs (Agree-desired_status lib route s before now a (eq_bool_inv _ _ m)))
            | inr m ↦ inr (before, l, record { agree = a; apart = eq_bool_apart _ _ m })
          ]
    ]
