-- ===== src/Proxy/Relay/Framed.antt =====
-- One round of the relay at each kind of message, with writes that succeed.
use pg_k8s_proxy.Common.{
  ℕ, suc, ◌+◌, ◌^◌, ◌≤◌, ◌<◌, ◌≡◌, refl, ap, ap₂, ◌∙◌, Bytes, some, List, [], ◌∷◌, ◌++◌, true,
  false, ok, length, All, append_assoc, ◌==◌, arith,
}
use pg_k8s_proxy.Wire.Io.{put_uint32}
use pg_k8s_proxy.Wire.Startup.{
  CancelRequest, msg_backend_key_data, encode_backend_key_data, decode_backend_key_data,
}
use pg_k8s_proxy.Wire.Startup.Frame.{decode-encode_backend_key_data}
use pg_k8s_proxy.Wire.Message.{Message, encode_message, msg_ready_for_query, max_message_length}
use pg_k8s_proxy.Wire.Message.Framing.{next_message-encode_message}
use pg_k8s_proxy.Registry.Resolve.{Route}
use pg_k8s_proxy.Proxy.Cancel.{CancelRegistry, issue}
use pg_k8s_proxy.Proxy.Relay.{
  Written, all, RelayState, entry_for, rewrite_message, splice_to_client, forward_message,
  relay_loop, sent_all,
}

-- A message that is relayed as it is and does not end the startup.
pub record IsPlain (m : Message) : Type 0 where
  pub no_key : (m.type == msg_backend_key_data) ≡ false
  pub not_ready : (m.type == msg_ready_for_query) ≡ false
  pub fits : length m.body + 4 ≤ max_message_length

abbrev pub put_messages : List Message → Bytes
put_messages [] = []
put_messages (m ∷ ms) = encode_message m ++ put_messages ms

abbrev pub IsKey : CancelRequest → Type 0
IsKey k = (k.process_id < 2 ^ 32) × (k.secret_key < 2 ^ 32)

abbrev pub key_message : CancelRequest → Message
key_message k = record {
  type = msg_backend_key_data;
  body = put_uint32 k.process_id ++ put_uint32 k.secret_key;
}

pub key_message-encode :
    (k : CancelRequest) → encode_backend_key_data k ≡ encode_message (key_message k)
unfolding encode_backend_key_data encode_message
key_message-encode k = refl

key_message-decode :
    (k : CancelRequest) → IsKey k → decode_backend_key_data (key_message k).body ≡ ok k
unfolding encode_backend_key_data
key_message-decode k (p, q) = decode-encode_backend_key_data k p q

key_message-fits : (k : CancelRequest) → length (key_message k).body + 4 ≤ max_message_length
key_message-fits k = omega arith

-- The state after the messages, all of them sent.
abbrev pub sent_messages : RelayState → List Message → RelayState
sent_messages s [] = s
sent_messages s (m ∷ ms) = sent_messages (sent_all s (encode_message m)) ms

suc_add : (n m : ℕ) → suc n + m ≡ suc (n + m)
suc_add n m = omega arith

module _ (route : Route) (client_write : ℕ → Written) (copy : Written)
    (writes : (n : ℕ) → client_write n ≡ all) where
  pub relay_plain :
      (m : Message) (fuel : ℕ) (s : RelayState) (rest : Bytes)
      → IsPlain m
      → relay_loop route client_write copy (suc fuel) s (encode_message m ++ rest)
        ≡ relay_loop route client_write copy fuel (sent_all s (encode_message m)) rest
  unfolding relay_loop forward_message rewrite_message
  relay_plain m fuel s rest v =
      rw (next_message-encode_message m rest v.fits, relay_loop)
        (rw (v.no_key, forward_message, writes s.writes) (rw v.not_ready))

  rewrite_key :
      (k : CancelRequest) (s : RelayState) {key : CancelRequest} {after : CancelRegistry}
      {left : List Bytes}
      → IsKey k
      → issue s.draws (entry_for route k) s.cancels ≡ some (key, after, left)
      → rewrite_message route client_write copy (key_message k) s
        ≡ ok (
          encode_backend_key_data key,
          record s { cancels = after; draws = left; issued = some key },
        )
  unfolding rewrite_message
  rewrite_key k s v i = rw (key_message-decode k v, rewrite_message) (rw i refl)

  pub relay_key :
      (k : CancelRequest) (fuel : ℕ) (s : RelayState) (rest : Bytes) {key : CancelRequest}
      {after : CancelRegistry} {left : List Bytes}
      → IsKey k
      → issue s.draws (entry_for route k) s.cancels ≡ some (key, after, left)
      → relay_loop route client_write copy (suc fuel) s (encode_message (key_message k) ++ rest)
        ≡ relay_loop route client_write copy fuel
            (sent_all
              (record s { cancels = after; draws = left; issued = some key })
              (encode_backend_key_data key))
            rest
  unfolding relay_loop forward_message
  relay_key k fuel s rest v i =
      rw (next_message-encode_message (key_message k) rest (key_message-fits k), relay_loop)
        (rw (rewrite_key k s v i, forward_message, writes s.writes) refl)

  pub relay_ready :
      (m : Message) (fuel : ℕ) (s : RelayState) (rest : Bytes)
      → (m.type == msg_backend_key_data) ≡ false
      → (m.type == msg_ready_for_query) ≡ true
      → length m.body + 4 ≤ max_message_length
      → relay_loop route client_write copy (suc fuel) s (encode_message m ++ rest)
        ≡ splice_to_client route client_write copy (sent_all s (encode_message m)) rest
  unfolding relay_loop forward_message rewrite_message
  relay_ready m fuel s rest k z n =
      rw (next_message-encode_message m rest n, relay_loop)
        (rw (k, forward_message, writes s.writes) (rw z))

  pub relay_messages :
      (ms : List Message) (fuel : ℕ) (s : RelayState) (rest : Bytes)
      → All IsPlain ms
      → relay_loop route client_write copy (length ms + fuel) s (put_messages ms ++ rest)
        ≡ relay_loop route client_write copy fuel (sent_messages s ms) rest
  relay_messages [] fuel s rest a =
      ap (λ n. relay_loop route client_write copy n s rest) (omega arith)
  relay_messages (m ∷ ms) fuel s rest a =
      ap₂ (λ n. relay_loop route client_write copy n s) (suc_add (length ms) fuel)
        (append_assoc (encode_message m) (put_messages ms) rest)
      ∙ relay_plain m (length ms + fuel) s (put_messages ms ++ rest) a.0
      ∙ relay_messages ms fuel (sent_all s (encode_message m)) rest a.1
