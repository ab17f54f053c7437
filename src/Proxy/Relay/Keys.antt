-- ===== src/Proxy/Relay/Keys.antt =====
-- The cancellation keys in the registry across a relayed session.
use pg_k8s_proxy.Common.{
  ℕ, zero, suc, ◌≡◌, ◌≢◌, refl, ap, ◌∙◌, Bytes, Option, none, some, List, Bool, true, ok, length,
  lookup, lookup-erase, ◌==◌, ◌⊎◌, inl, inr, Bool-cases, Option-cases, Result-cases, arith,
}
use pg_k8s_proxy.Wire.Startup.{CancelRequest, msg_backend_key_data, decode_backend_key_data}
use pg_k8s_proxy.Wire.Message.{Message, next_message, msg_ready_for_query}
use pg_k8s_proxy.Registry.Resolve.{Route}
use pg_k8s_proxy.Proxy.Cancel.{CancelEntry, CancelRegistry, cancel_keys, key_eq_iff, issue}
use pg_k8s_proxy.Proxy.Cancel.Issue.{issue-some-Issued}
use pg_k8s_proxy.Proxy.Relay.{
  Written, all, partly, RelayState, RelayEnd, entry_for, rewrite_message, splice_to_client,
  forward_message, relay_loop, relay_from_backend, release_issued, start,
}

pub Written-cases : (w : Written) → (w ≡ all) ⊎ ((n : ℕ) × (benign : Bool) × (w ≡ partly n benign))
Written-cases all = inl refl
Written-cases (partly n benign) = inr (n, benign, refl)

-- The key is registered, and is not the one that this session releases.
record Spares (j : CancelRequest) (e : CancelEntry) (s : RelayState) : Type 0 where
  kept : lookup j s.cancels ≡ some e
  not_own : s.issued ≢ some j

module _ (route : Route) (client_write : ℕ → Written) (copy : Written) where
  -- The two ways in which a message is rewritten: kept as it is, or replaced by a new key.
  abbrev Replaced : Message → RelayState → RelayState → Type 0
  Replaced m s s' =
      (key backend_key : CancelRequest) × (after : CancelRegistry) × (left : List Bytes) × (issue
          s.draws (entry_for route backend_key) s.cancels
        ≡ some (key, after, left))
      × (s' ≡ record s { cancels = after; draws = left; issued = some key })

  Replaced-inv :
      (m : Message) (s : RelayState) {out : Bytes} {s' : RelayState}
      → (m.type == msg_backend_key_data) ≡ true
      → rewrite_message route client_write copy m s ≡ ok (out, s')
      → Replaced m s s'
  unfolding rewrite_message
  Replaced-inv m s k h = elim (Result-cases (decode_backend_key_data m.body)) [
    | inr (x, d) ↦ absurd (cc (rw (k, rewrite_message, d) at h))
    | inl (bk, d) ↦ elim (Option-cases (issue s.draws (entry_for route bk) s.cancels)) [
      | inl i ↦ absurd (cc (rw (k, rewrite_message, d, i) at h))
      | inr ((key, after, left), i) ↦
          (key, bk, after, left, i, cc (rw (k, rewrite_message, d, i) at h))
    ]
  ]

  rewrite_message_inv :
      (m : Message) (s : RelayState) {out : Bytes} {s' : RelayState}
      → rewrite_message route client_write copy m s ≡ ok (out, s')
      → (s' ≡ s) ⊎ Replaced m s s'
  unfolding rewrite_message
  rewrite_message_inv m s h = elim (Bool-cases (m.type == msg_backend_key_data)) [
    | inl k ↦ inr (Replaced-inv m s k h)
    | inr k ↦ inl (cc (rw (k, rewrite_message) at h))
  ]

  module _ (j : CancelRequest) (e : CancelEntry) where
    rewrite_message-Spares :
        (m : Message) (s : RelayState) {out : Bytes} {s' : RelayState}
        → rewrite_message route client_write copy m s ≡ ok (out, s')
        → Spares j e s
        → Spares j e s'
    rewrite_message-Spares m s h v = elim (rewrite_message_inv m s h) [
      | inl q ↦ rw q v
      | inr (key, bk, after, left, i, q) ↦
          let d = issue-some-Issued s.draws (entry_for route bk) s.cancels i in
          rw q (record {
            kept = ground (arith, d.found j, d.fresh, key_eq_iff key j, v.kept);
            not_own = λ z. ground (arith, d.fresh, v.kept, z);
          })
    ]

    forward_message-Spares :
        (continue : RelayState → Bytes → RelayEnd) (m : Message) (rest : Bytes) (s : RelayState)
        → ((t : RelayState) (x : Bytes) → Spares j e t → Spares j e (continue t x).state)
        → Spares j e s
        → Spares j e (forward_message route client_write copy continue m rest s).state
    unfolding forward_message splice_to_client
    forward_message-Spares continue m rest s h v =
        elim (Result-cases (rewrite_message route client_write copy m s)) [
          | inr (x, r) ↦ rw (r, forward_message) v
          | inl ((out, s'), r) ↦
              let v' = rewrite_message-Spares m s r v in
              rw (r, forward_message)
                (elim (Written-cases (client_write s.writes)) [
                  | inr (n, b, w) ↦ rw w (record { kept = v'.kept; not_own = v'.not_own })
                  | inl w ↦ rw w (elim (Bool-cases (m.type == msg_ready_for_query)) [
                    | inr z ↦ rw z (h _ rest (record { kept = v'.kept; not_own = v'.not_own }))
                    | inl z ↦ rw z (elim (Written-cases copy) [
                      | inl c ↦
                          rw (c, splice_to_client) (record { kept = v'.kept; not_own = v'.not_own })
                      | inr (n, b, c) ↦
                          rw (c, splice_to_client) (record { kept = v'.kept; not_own = v'.not_own })
                    ])
                  ])
                ])
        ]

    relay_loop-Spares :
        (fuel : ℕ) (s : RelayState) (stream : Bytes)
        → Spares j e s
        → Spares j e (relay_loop route client_write copy fuel s stream).state
    unfolding relay_loop
    relay_loop-Spares zero s stream v = v
    relay_loop-Spares (suc fuel) s stream v = elim (Result-cases (next_message stream)) [
      | inr (x, n) ↦ rw (n, relay_loop) v
      | inl ((m, rest), n) ↦
          rw (n, relay_loop)
            (forward_message-Spares (relay_loop route client_write copy fuel) m rest s
              (relay_loop-Spares fuel) v)
    ]

    release_issued-Spares :
        (s : RelayState) (o : Option CancelRequest)
        → s.issued ≡ o
        → Spares j e s
        → lookup j (release_issued o s.cancels) ≡ some e
    release_issued-Spares s none q v = v.kept
    release_issued-Spares s (some key) q v = ground (
      arith,
      lookup-erase key j s.cancels,
      key_eq_iff key j,
      v.kept,
      λ (z : key ≡ j). v.not_own (q ∙ ap some z),
    )

    -- Whatever a backend sends and whatever fails, a session leaves every key of another session
    -- registered, with the backend that it had.
    pub relay_from_backend_spares :
        (cancels : CancelRegistry) (draws : List Bytes) (stream : Bytes)
        → lookup j cancels ≡ some e
        → lookup j (relay_from_backend route client_write copy cancels draws stream).1 ≡ some e
    unfolding relay_from_backend
    relay_from_backend_spares cancels draws stream h = release_issued-Spares _ _ refl (
        relay_loop-Spares (suc (length stream)) (start cancels draws) stream
          (record { kept = h; not_own = λ z. cc }))
