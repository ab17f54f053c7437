-- ===== src/Proxy/Negotiate.antt =====
-- src/internal/proxy/session.go: `negotiate`, the packets before the session starts.
-- The client is the bytes that it will send before it closes. What the network and the TLS library
-- do is given: which writes succeed, and what a TLS handshake on the bytes to come yields.
pub mod Outcome
pub mod Declines
use pg_k8s_proxy.Common.{
  ℕ, zero, suc, Bytes, Option, none, some, List, [], ◌∷◌, ◌++◌, Bool, true, false, not, ◌&&◌,
  Result, ok, err, length, if◌then◌else◌, codes,
}
use pg_k8s_proxy.Wire.Io.{WireError}
use pg_k8s_proxy.Wire.Startup.{
  StartupPacket, is_ssl_request, is_gss_enc_request, is_cancel_request, read_startup_packet,
}
use pg_k8s_proxy.Wire.Message.{encode_error_response, sql_state_protocol_violation}

-- `ServerTLS`; its certificates are the handshake's matter.
pub record ServerTls : Type 0 where
  pub required : Bool

pub record Network : Type 0 where
  -- Whether the write succeeds that follows so many others.
  pub write_succeeds : ℕ → Bool
  -- The bytes inside the TLS session that the client opens, or `none` if the handshake fails.
  pub handshake : Bytes → Option Bytes

-- A client connection: the bytes to come, whether they come through TLS, and what was written.
pub record ClientConn : Type 0 where
  pub input : Bytes
  pub encrypted : Bool
  pub sent : List Bytes

pub data NegotiateError : Type 0 where
  reading_startup : WireError → NegotiateError
  declining_tls second_ssl_request accepting_tls tls_handshake : NegotiateError
  declining_gss tls_required too_many_rounds : NegotiateError

abbrev pub negotiation_accepted : Bytes
negotiation_accepted = b'S' ∷ []

abbrev pub negotiation_rejected : Bytes
negotiation_rejected = b'N' ∷ []

abbrev pub max_negotiation_rounds : ℕ
max_negotiation_rounds = 4

abbrev pub Negotiated : Type 0
Negotiated = ClientConn × Result NegotiateError StartupPacket

-- `tls_config.TLS != nil && s.cfg.TLS.Required`.
abbrev pub requires_tls : Option ServerTls → Bool
requires_tls none = false
requires_tls (some t) = t.required

module _ (net : Network) where
  unfoldable pub write : ClientConn → Bytes → Option ClientConn
  write c bytes =
      if net.write_succeeds (length c.sent)
      then some (record c { sent = c.sent ++ bytes ∷ [] })
      else none

  -- `writeFatal`, which ignores a failed write.
  unfoldable pub write_fatal : ClientConn → Bytes → Bytes → Bytes → ClientConn
  write_fatal c sql_state message detail =
      elim (write c (encode_error_response sql_state message detail)) [ none ↦ c | some c' ↦ c' ]

  -- The first case of the `switch`; `continue` is the next round.
  unfoldable pub on_ssl_request :
      (ClientConn → Negotiated) → Option ServerTls → ClientConn → Negotiated
  on_ssl_request continue none c = elim (write c negotiation_rejected) [
    | none ↦ (c, err declining_tls)
    | some c' ↦ continue c'
  ]
  on_ssl_request continue (some t) c =
      if c.encrypted then (c, err second_ssl_request) else elim (write c negotiation_accepted) [
        | none ↦ (c, err accepting_tls)
        | some c' ↦ elim (net.handshake c'.input) [
          | none ↦ (c', err tls_handshake)
          | some inner ↦ continue (record c' { input = inner; encrypted = true })
        ]
      ]

  unfoldable pub on_gss_enc_request : (ClientConn → Negotiated) → ClientConn → Negotiated
  on_gss_enc_request continue c = elim (write c negotiation_rejected) [
    | none ↦ (c, err declining_gss)
    | some c' ↦ continue c'
  ]

  -- The default case of the `switch`.
  unfoldable pub on_startup : Option ServerTls → StartupPacket → ClientConn → Negotiated
  on_startup tls packet c =
      if requires_tls tls && not c.encrypted
      then (
        write_fatal c sql_state_protocol_violation (codes "the gateway requires a TLS connection")
            (codes "Connect with sslmode=require or stronger."),
        err tls_required,
      )
      else (c, ok packet)

  unfoldable pub on_packet :
      (ClientConn → Negotiated) → Option ServerTls → StartupPacket → ClientConn → Negotiated
  on_packet continue tls packet c =
      if is_ssl_request packet
      then on_ssl_request continue tls c
      else if is_gss_enc_request packet
      then on_gss_enc_request continue c
      else if is_cancel_request packet
      then (c, ok packet)
      else on_startup tls packet c

  -- The loop, over the rounds that are left.
  unfoldable pub negotiate_loop : Option ServerTls → ℕ → ClientConn → Negotiated
  negotiate_loop tls zero c = (c, err too_many_rounds)
  negotiate_loop tls (suc rounds) c = elim (read_startup_packet c.input) [
    | err e ↦ (c, err (reading_startup e))
    | ok (packet, input) ↦
        on_packet (negotiate_loop tls rounds) tls packet (record c { input = input })
  ]

  unfoldable pub negotiate : Option ServerTls → Bytes → Negotiated
  negotiate tls input =
      negotiate_loop tls max_negotiation_rounds
        (record { input = input; encrypted = false; sent = [] })
