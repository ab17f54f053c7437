-- ===== src/Proxy/Relay/Startup.antt =====
-- The whole of a startup that the backend completes, relayed by writes that succeed.
use pg_k8s_proxy.Common.{
  ℕ, suc, ◌+◌, ◌-◌, ◌≤◌, ◌≡◌, refl, sym, ap, ap₂, ◌∙◌, Bytes, none, some, List, [], ◌∷◌, ◌++◌, true,
  false, length, All, append_assoc, append-nil, length-append, lookup, ◌==◌, arith,
}
use pg_k8s_proxy.Wire.Startup.{CancelRequest, msg_backend_key_data, encode_backend_key_data}
use pg_k8s_proxy.Wire.Message.{Message, encode_message, msg_ready_for_query, max_message_length}
use pg_k8s_proxy.Registry.Resolve.{Route}
use pg_k8s_proxy.Proxy.Cancel.{CancelRegistry, cancel_keys, issue, release}
use pg_k8s_proxy.Proxy.Cancel.Issue.{release-issue}
use pg_k8s_proxy.Proxy.Relay.{
  Written, all, RelayState, entry_for, splice_to_client, relay_loop, relay_from_backend, sent_all,
  start, release_issued,
}
use pg_k8s_proxy.Proxy.Relay.Framed.{
  IsPlain, IsKey, put_messages, key_message-encode, sent_messages, relay_key, relay_ready,
  relay_messages,
}

-- The message that ends the startup.
pub record IsReady (m : Message) : Type 0 where
  pub no_key : (m.type == msg_backend_key_data) ≡ false
  pub ready : (m.type == msg_ready_for_query) ≡ true
  pub fits : length m.body + 4 ≤ max_message_length

sent_messages-sent :
    (ms : List Message) (s : RelayState) → (sent_messages s ms).sent ≡ s.sent ++ put_messages ms
sent_messages-sent [] s = sym (append-nil s.sent)
sent_messages-sent (m ∷ ms) s =
    sent_messages-sent ms (sent_all s (encode_message m))
    ∙ append_assoc s.sent (encode_message m) (put_messages ms)

sent_messages-framed :
    (ms : List Message) (s : RelayState)
    → (sent_messages s ms).framed ≡ s.framed + length (put_messages ms)
sent_messages-framed [] s = omega arith
sent_messages-framed (m ∷ ms) s =
    sent_messages-framed ms (sent_all s (encode_message m))
    ∙ omega (arith, length-append (encode_message m) (put_messages ms))

sent_messages-keys :
    (ms : List Message) (s : RelayState)
    → ((sent_messages s ms).cancels ≡ s.cancels)
      × ((sent_messages s ms).issued ≡ s.issued)
      × ((sent_messages s ms).draws ≡ s.draws)
sent_messages-keys [] s = (refl, refl, refl)
sent_messages-keys (m ∷ ms) s = sent_messages-keys ms (sent_all s (encode_message m))

length-encode_message : (m : Message) → 1 ≤ length (encode_message m)
unfolding encode_message
length-encode_message m = omega arith

length-put_messages : (ms : List Message) → length ms ≤ length (put_messages ms)
length-put_messages [] = omega arith
length-put_messages (m ∷ ms) = omega (
  arith,
  length-put_messages ms,
  length-encode_message m,
  length-append (encode_message m) (put_messages ms),
)

-- What the backend sends, with the key that stands in it.
abbrev pub startup_stream : List Message → CancelRequest → List Message → Message → Bytes → Bytes
startup_stream ms₁ k ms₂ z rest =
    put_messages ms₁
    ++ (encode_backend_key_data k ++ (put_messages ms₂ ++ (encode_message z ++ rest)))

append_five :
    (a b c d e f : Bytes) → ((((a ++ b) ++ c) ++ d) ++ e) ++ f ≡ a ++ (b ++ (c ++ (d ++ (e ++ f))))
append_five a b c d e f = simp append_assoc

module _ (route : Route) (client_write : ℕ → Written)
    (writes : (n : ℕ) → client_write n ≡ all) where
  -- The states behind the key and before the splice.
  abbrev keyed : RelayState → CancelRequest → CancelRegistry → List Bytes → RelayState
  keyed s key after left =
      sent_all (record s { cancels = after; draws = left; issued = some key })
        (encode_backend_key_data key)

  abbrev last :
      RelayState → CancelRequest → CancelRegistry → List Bytes → List Message → Message → RelayState
  last s key after left ms₂ z =
      sent_all (sent_messages (keyed s key after left) ms₂) (encode_message z)

  relay_loop-startup :
      (ms₁ : List Message) (k : CancelRequest) (ms₂ : List Message) (z : Message) (rest : Bytes)
      (fuel : ℕ) (s : RelayState) {key : CancelRequest} {after : CancelRegistry} {left : List Bytes}
      → All IsPlain ms₁
      → IsKey k
      → All IsPlain ms₂
      → IsReady z
      → issue (sent_messages s ms₁).draws (entry_for route k) (sent_messages s ms₁).cancels
        ≡ some (key, after, left)
      → relay_loop route client_write all
          (length ms₁ + suc (length ms₂ + suc fuel))
          s
          (startup_stream ms₁ k ms₂ z rest)
        ≡ splice_to_client route client_write all
            (last (sent_messages s ms₁) key after left ms₂ z)
            rest
  relay_loop-startup ms₁ k ms₂ z rest fuel s {key} {after} {left} p v q r i =
      let s₁ = sent_messages s ms₁ in
      relay_messages route client_write all writes ms₁ (suc (length ms₂ + suc fuel)) s
        (encode_backend_key_data k ++ (put_messages ms₂ ++ (encode_message z ++ rest))) p
      ∙ ap
          (λ e.
            relay_loop route client_write all (suc (length ms₂ + suc fuel)) s₁
              (e ++ (put_messages ms₂ ++ (encode_message z ++ rest))))
          (key_message-encode k)
      ∙ relay_key route client_write all writes k (length ms₂ + suc fuel) s₁
          (put_messages ms₂ ++ (encode_message z ++ rest)) v i
      ∙ relay_messages route client_write all writes ms₂ (suc fuel) (keyed s₁ key after left)
          (encode_message z ++ rest) q
      ∙ relay_ready route client_write all writes z fuel
          (sent_messages (keyed s₁ key after left) ms₂) rest r.no_key r.ready r.fits

  last-sent :
      (s : RelayState) (key : CancelRequest) (after : CancelRegistry) (left : List Bytes)
      (ms₁ ms₂ : List Message) (z : Message) (rest : Bytes)
      → (last (sent_messages s ms₁) key after left ms₂ z).sent ++ rest
        ≡ s.sent ++ startup_stream ms₁ key ms₂ z rest
  last-sent s key after left ms₁ ms₂ z rest =
      let key_bytes = encode_backend_key_data key in
      ap (λ x. (x ++ encode_message z) ++ rest)
        (sent_messages-sent ms₂ (keyed (sent_messages s ms₁) key after left))
      ∙ ap (λ x. (((x ++ key_bytes) ++ put_messages ms₂) ++ encode_message z) ++ rest)
          (sent_messages-sent ms₁ s)
      ∙ append_five s.sent (put_messages ms₁) key_bytes (put_messages ms₂) (encode_message z) rest

  last-framed :
      (s : RelayState) (key : CancelRequest) (after : CancelRegistry) (left : List Bytes)
      (ms₁ ms₂ : List Message) (z : Message) (rest : Bytes)
      → (last (sent_messages s ms₁) key after left ms₂ z).framed + length rest
        ≡ s.framed + length (startup_stream ms₁ key ms₂ z rest)
  last-framed s key after left ms₁ ms₂ z rest = omega (
    arith,
    sent_messages-framed ms₂ (keyed (sent_messages s ms₁) key after left),
    sent_messages-framed ms₁ s,
    length-append (put_messages ms₁)
        (encode_backend_key_data key ++ (put_messages ms₂ ++ (encode_message z ++ rest))),
    length-append (encode_backend_key_data key) (put_messages ms₂ ++ (encode_message z ++ rest)),
    length-append (put_messages ms₂) (encode_message z ++ rest),
    length-append (encode_message z) rest,
  )

  -- The bounds of the loop are enough for it: the fuel that remains behind the startup.
  enough_fuel :
      (ms₁ : List Message) (k : CancelRequest) (ms₂ : List Message) (z : Message) (rest : Bytes)
      → (fuel : ℕ) × (suc (length (startup_stream ms₁ k ms₂ z rest))
          ≡ length ms₁ + suc (length ms₂ + suc fuel))
  unfolding encode_backend_key_data
  enough_fuel ms₁ k ms₂ z rest =
      let n = length (startup_stream ms₁ k ms₂ z rest) in
      (
        (n - 1) - (length ms₁ + length ms₂),
        omega (
          arith,
          length-put_messages ms₁,
          length-put_messages ms₂,
          length-encode_message z,
          length-append (put_messages ms₁)
              (encode_backend_key_data k ++ (put_messages ms₂ ++ (encode_message z ++ rest))),
          length-append (encode_backend_key_data k)
              (put_messages ms₂ ++ (encode_message z ++ rest)),
          length-append (put_messages ms₂) (encode_message z ++ rest),
          length-append (encode_message z) rest,
        ),
      )

  -- The run of the loop from the first state, and what it depends on there.
  startup_run :
      (ms₁ : List Message) (k : CancelRequest) (ms₂ : List Message) (z : Message) (rest : Bytes)
      (s : RelayState) {key : CancelRequest} {after : CancelRegistry} {left : List Bytes}
      → All IsPlain ms₁
      → IsKey k
      → All IsPlain ms₂
      → IsReady z
      → issue s.draws (entry_for route k) s.cancels ≡ some (key, after, left)
      → relay_loop route client_write all
          (suc (length (startup_stream ms₁ k ms₂ z rest)))
          s
          (startup_stream ms₁ k ms₂ z rest)
        ≡ splice_to_client route client_write all
            (last (sent_messages s ms₁) key after left ms₂ z)
            rest
  startup_run ms₁ k ms₂ z rest s {key} {after} {left} p v q r i =
      let (fuel, n) = enough_fuel ms₁ k ms₂ z rest in
      ap (λ f. relay_loop route client_write all f s (startup_stream ms₁ k ms₂ z rest)) n
      ∙ relay_loop-startup ms₁ k ms₂ z rest fuel s p v q r
          (rw ((sent_messages-keys ms₁ s).2, (sent_messages-keys ms₁ s).0) i)

  -- The key that is released and the registry that it is released from.
  last-keys :
      (s : RelayState) (key : CancelRequest) (after : CancelRegistry) (left : List Bytes)
      (ms₂ : List Message) (z : Message)
      → release_issued (last s key after left ms₂ z).issued (last s key after left ms₂ z).cancels
        ≡ release key after
  last-keys s key after left ms₂ z =
      let (c, i, _) = sent_messages-keys ms₂ (keyed s key after left) in ap₂ release_issued i c

  -- A backend that sends messages, its key, messages, ReadyForQuery and then anything, to a client
  -- that takes all of it: the client receives the very same bytes with the issued key in place of
  -- the backend's, the session ends with no error, every byte that the client received is counted,
  -- and the registry behind the session answers every lookup as the one before it did.
  pub relay_startup :
      (ms₁ : List Message) (k : CancelRequest) (ms₂ : List Message) (z : Message) (rest : Bytes)
      (cancels : CancelRegistry) (draws : List Bytes) {key : CancelRequest} {after : CancelRegistry}
      {left : List Bytes}
      → All IsPlain ms₁
      → IsKey k
      → All IsPlain ms₂
      → IsReady z
      → issue draws (entry_for route k) cancels ≡ some (key, after, left)
      → let served =
          relay_from_backend route client_write all cancels draws
            (startup_stream ms₁ k ms₂ z rest) in
        (served.0.state.sent ≡ startup_stream ms₁ key ms₂ z rest)
        × (served.0.outcome ≡ none)
        × (served.0.counted ≡ length (startup_stream ms₁ key ms₂ z rest))
        × ((j : CancelRequest) → lookup j served.1 ≡ lookup j cancels)
  unfolding relay_from_backend splice_to_client
  relay_startup ms₁ k ms₂ z rest cancels draws {key} {after} {left} p v q r i =
      let s = start cancels draws in
      let h = startup_run ms₁ k ms₂ z rest s p v q r i in
      rw h (
        last-sent s key after left ms₁ ms₂ z rest,
        refl,
        last-framed s key after left ms₁ ms₂ z rest ∙ omega arith,
        λ j.
            ap (lookup j) (last-keys (sent_messages s ms₁) key after left ms₂ z)
            ∙ release-issue draws (entry_for route k) cancels j i,
      )
