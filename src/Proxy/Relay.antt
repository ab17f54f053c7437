-- ===== src/Proxy/Relay.antt =====
-- src/internal/proxy/relay.go: `relayFromBackend` and `spliceToClient`, the backend-to-client half
-- of a session. The backend is the bytes that it sends before it closes. What becomes of each write
-- to the client and of the final copy is given.
pub mod Framed
pub mod Startup
pub mod Keys
use pg_k8s_proxy.Common.{
  ℕ, zero, suc, ◌+◌, Bytes, Option, none, some, List, [], ◌∷◌, ◌++◌, Bool, true, false, Result, ok,
  err, length, take, if◌then◌else◌, ◌==◌, Assoc,
}
use pg_k8s_proxy.Wire.Io.{WireError, is_benign_close}
use pg_k8s_proxy.Wire.Startup.{
  CancelRequest, msg_backend_key_data, encode_backend_key_data, decode_backend_key_data,
}
use pg_k8s_proxy.Wire.Message.{Message, encode_message, next_message, msg_ready_for_query}
use pg_k8s_proxy.Registry.Resolve.{Route, address}
use pg_k8s_proxy.Proxy.Cancel.{CancelEntry, CancelRegistry, issue, release}

-- What a write did: all of it, or so many bytes and an error, benign or not.
pub data Written : Type 0 where
  all : Written
  partly : ℕ → Bool → Written

-- `out_of_fuel` and `no_draws` are no errors of the source: the loop's bound, and the random bytes
-- that are at hand, ran out.
pub data RelayError : Type 0 where
  framing decoding : WireError → RelayError
  writing splicing out_of_fuel no_draws : RelayError

-- The variables of the loop, with the shared registry, the random bytes to come, and what the
-- client received.
pub record RelayState : Type 0 where
  pub cancels : CancelRegistry
  pub draws : List Bytes
  pub issued : Option CancelRequest
  pub framed : ℕ
  pub writes : ℕ
  pub sent : Bytes

-- How it ends: the bytes counted in the metric, and the error returned.
pub record RelayEnd : Type 0 where
  pub state : RelayState
  pub counted : ℕ
  pub outcome : Option RelayError

abbrev pub unless_benign : Bool → RelayError → Option RelayError
unless_benign true e = none
unless_benign false e = some e

abbrev pub entry_for : Route → CancelRequest → CancelEntry
entry_for route key = record { backend_addr = address route; backend_key = key; tls = route.tls }

abbrev pub sent_all : RelayState → Bytes → RelayState
sent_all s out = record s {
  framed = s.framed + length out;
  writes = suc s.writes;
  sent = s.sent ++ out;
}

abbrev pub sent_partly : RelayState → ℕ → Bytes → RelayState
sent_partly s n out = record s {
  framed = s.framed + n;
  writes = suc s.writes;
  sent = s.sent ++ take n out;
}

-- The deferred release.
abbrev pub release_issued : Option CancelRequest → CancelRegistry → CancelRegistry
release_issued none cancels = cancels
release_issued (some key) cancels = release key cancels

abbrev pub start : CancelRegistry → List Bytes → RelayState
start cancels draws = record {
  cancels = cancels;
  draws = draws;
  issued = none;
  framed = 0;
  writes = 0;
  sent = [];
}

module _ (route : Route) (client_write : ℕ → Written) (copy : Written) where
  -- What is sent for a message. A backend's key is kept, and one of the gateway's takes its place.
  unfoldable pub rewrite_message : Message → RelayState → Result RelayError (Bytes × RelayState)
  rewrite_message m s =
      if m.type == msg_backend_key_data
      then elim (decode_backend_key_data m.body) [
        | err e ↦ err (decoding e)
        | ok key ↦ elim (issue s.draws (entry_for route key) s.cancels) [
          | none ↦ err no_draws
          | some (issued, cancels, draws) ↦ ok (
            encode_backend_key_data issued,
            record s { cancels = cancels; draws = draws; issued = some issued },
          )
        ]
      ]
      else ok (encode_message m, s)

  -- `spliceToClient`, with the bytes that were counted before it.
  unfoldable pub splice_to_client : RelayState → Bytes → RelayEnd
  splice_to_client s rest = elim copy [
    | all ↦ record {
      state = record s { sent = s.sent ++ rest };
      counted = s.framed + length rest;
      outcome = none;
    }
    | partly n benign ↦ record {
      state = record s { sent = s.sent ++ take n rest };
      counted = s.framed + n;
      outcome = unless_benign benign splicing;
    }
  ]

  -- One round behind `Next`; `continue` is the next round.
  unfoldable pub forward_message :
      (RelayState → Bytes → RelayEnd) → Message → Bytes → RelayState → RelayEnd
  forward_message continue m rest s = elim (rewrite_message m s) [
    | err e ↦ record { state = s; counted = 0; outcome = some e }
    | ok (out, s') ↦ elim (client_write s.writes) [
      | partly n benign ↦ record {
        state = sent_partly s' n out;
        counted = s'.framed + n;
        outcome = unless_benign benign writing;
      }
      | all ↦
          if m.type == msg_ready_for_query
          then splice_to_client (sent_all s' out) rest
          else continue (sent_all s' out) rest
    ]
  ]

  -- The loop, on fuel.
  unfoldable pub relay_loop : ℕ → RelayState → Bytes → RelayEnd
  relay_loop zero s stream = record { state = s; counted = 0; outcome = some out_of_fuel }
  relay_loop (suc fuel) s stream = elim (next_message stream) [
    | err e ↦ record {
      state = s;
      counted = s.framed;
      outcome = unless_benign (is_benign_close e) (framing e);
    }
    | ok (m, rest) ↦ forward_message (relay_loop fuel) m rest s
  ]

  -- How `relayFromBackend` ends, and the registry that it leaves. A message takes five bytes at
  -- least, so there are fewer rounds than bytes.
  unfoldable pub relay_from_backend :
      CancelRegistry → List Bytes → Bytes → RelayEnd × CancelRegistry
  relay_from_backend cancels draws stream =
      let end = relay_loop (suc (length stream)) (start cancels draws) stream in
      (end, release_issued end.state.issued end.state.cancels)
