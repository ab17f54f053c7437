-- ===== src/Proxy/Dial.antt =====
-- src/internal/proxy/session.go: `dialBackend`, `upgradeBackendTLS` and `verifyChainOnly`, and
-- src/internal/proxy/relay.go: `forwardCancel`. What the network, the backend and the TLS library
-- do is given; contexts and timeouts are among their failures.
pub mod Policy
pub mod Cancelling
use pg_k8s_proxy.Common.{
  ℕ, Bytes, Option, none, some, List, [], ◌∷◌, ◌++◌, Bool, true, false, not, ◌||◌, Result, ok, err,
  lookup, is_empty, text_eq, if◌then◌else◌, ◌==◌,
}
use pg_k8s_proxy.Api.{NamespacedName, tls_require, tls_verify_ca}
use pg_k8s_proxy.Wire.Io.{put_uint32, read_full}
use pg_k8s_proxy.Wire.Startup.{CancelRequest, ssl_request_code, encode_cancel_request}
use pg_k8s_proxy.Registry.Resolve.{CertPool, TlsConfig, Route, tls_enabled, address}
use pg_k8s_proxy.Proxy.Cancel.{CancelRegistry, CancelEntry, cancel_keys}

-- `tls.Config`, the fields that the gateway sets.
pub record ClientTls : Type 0 where
  pub server_name : Bytes
  pub root_cas : Option CertPool
  pub min_version : ℕ
  pub insecure_skip_verify : Bool

-- A backend that took the connection, and the libraries towards it.
pub record Endpoint : Type 0 where
  pub sets_deadline : Bool
  -- Whether the writes succeed of the SSLRequest and of the first packet.
  pub takes_ssl_request : Bool
  pub takes_packet : Bool
  -- What it sends in answer to the SSLRequest before it closes.
  pub reply : Bytes
  -- Whether the TLS handshake succeeds with this configuration.
  pub handshake : ClientTls → Bool
  pub peer_certificates : List Bytes
  -- `Certificate.Verify` of the certificate with these roots and intermediates.
  pub verify : Option CertPool → List Bytes → Bytes → Bool

-- Who listens on an address, if anyone can be reached there.
abbrev pub Dialer : Type 0
Dialer = Bytes → Option Endpoint

-- A backend connection: what was sent in the clear, the TLS session on it and what was sent there.
pub record BackendConn : Type 0 where
  pub plain : Bytes
  pub tls : Option ClientTls
  pub inside : Bytes
  pub is_open : Bool

pub data DialError : Type 0 where
  dialing setting_deadline sending_ssl_request reading_reply : DialError
  tls_declined : Bytes → DialError
  backend_handshake no_certificate chain_not_verified : DialError

abbrev pub dialed : BackendConn
dialed = record { plain = []; tls = none; inside = []; is_open = true }

abbrev pub closed : BackendConn → BackendConn
closed c = record c { is_open = false }

-- `conn.Write` of a whole packet, in the TLS session if there is one.
abbrev pub send : BackendConn → Bytes → BackendConn
send c packet = elim c.tls [
  | none ↦ record c { plain = c.plain ++ packet }
  | some _ ↦ record c { inside = c.inside ++ packet }
]

-- `tls.VersionTLS12`.
abbrev pub version_tls12 : ℕ
version_tls12 = 771

abbrev pub ssl_request : Bytes
ssl_request = put_uint32 8 ++ put_uint32 ssl_request_code

unfoldable pub client_tls : Bytes → TlsConfig → ClientTls
client_tls host tls = record {
  server_name = if is_empty tls.server_name then host else tls.server_name;
  root_cas = tls.root_cas;
  min_version = version_tls12;
  insecure_skip_verify = text_eq tls.mode tls_require || text_eq tls.mode tls_verify_ca;
}

unfoldable pub verify_chain_only : Endpoint → Option CertPool → Option DialError
verify_chain_only peer roots = elim peer.peer_certificates [
  | [] ↦ some no_certificate
  | leaf ∷ intermediates ↦
      if peer.verify roots intermediates leaf then none else some chain_not_verified
]

-- `upgradeBackendTLS` from the client's handshake on, on the connection after the SSLRequest.
unfoldable pub secure : Endpoint → Bytes → TlsConfig → BackendConn → BackendConn × Option DialError
secure peer host tls conn =
    let config = client_tls host tls in
    if not (peer.handshake config)
    then (conn, some backend_handshake)
    else if text_eq tls.mode tls_verify_ca
    then (record conn { tls = some config }, verify_chain_only peer tls.root_cas)
    else (record conn { tls = some config }, none)

-- `upgradeBackendTLS`, for the host and the policy of the route.
unfoldable pub upgrade_backend_tls :
    Endpoint → Bytes → TlsConfig → BackendConn → BackendConn × Option DialError
unfolding secure
upgrade_backend_tls peer host tls conn =
    if not peer.takes_ssl_request
    then (conn, some sending_ssl_request)
    else (let conn' = send conn ssl_request in
        elim (read_full 1 peer.reply) [
          | err _ ↦ (conn', some reading_reply)
          | ok (reply, _) ↦
              if text_eq reply (b'S' ∷ [])
              then secure peer host tls conn'
              else (conn', some (tls_declined tls.mode))
        ])

-- How `dialBackend` ends: with an error and no connection, with an error and the connection that it
-- gives up, or with the connection that it returns.
pub data Dialed : Type 0 where
  not_dialed : DialError → Dialed
  abandoned : DialError → BackendConn → Dialed
  opened : Endpoint → BackendConn → Dialed

abbrev pub finish_upgrade : Endpoint → BackendConn × Option DialError → Dialed
finish_upgrade peer (conn, none) = opened peer conn
finish_upgrade peer (conn, some e) = abandoned e (closed conn)

unfoldable pub dial_backend : Dialer → Route → Dialed
dial_backend dialer route = elim (dialer (address route)) [
  | none ↦ not_dialed dialing
  | some peer ↦
      if not peer.sets_deadline
      then abandoned setting_deadline (closed dialed)
      else if not (tls_enabled route.tls)
      then opened peer dialed
      else finish_upgrade peer (upgrade_backend_tls peer route.host route.tls dialed)
]

-- The results that `cancelRequestsTotal` counts.
pub data CancelResult : Type 0 where
  unknown_key backend_unreachable tls_failed write_failed forwarded : CancelResult

-- `hostOf`, over `net.SplitHostPort`.
abbrev pub host_of : (Bytes → Option (Bytes × Bytes)) → Bytes → Bytes
host_of split_host_port address = elim (split_host_port address) [
  | none ↦ address
  | some (host, _) ↦ host
]

abbrev pub deliver :
    CancelRequest → Endpoint → BackendConn × Option DialError → CancelResult × Option BackendConn
deliver key peer (conn, some e) = (tls_failed, some (closed conn))
deliver key peer (conn, none) =
    if peer.takes_packet
    then (forwarded, some (closed (send conn (encode_cancel_request key))))
    else (write_failed, some (closed conn))

-- What is counted, and the connection that was made for the request.
unfoldable pub forward_cancel :
    Dialer
    → (Bytes → Option (Bytes × Bytes))
    → CancelRegistry
    → CancelRequest
    → CancelResult × Option BackendConn
forward_cancel dialer split_host_port cancels request = elim (lookup request cancels) [
  | none ↦ (unknown_key, none)
  | some entry ↦ elim (dialer entry.backend_addr) [
    | none ↦ (backend_unreachable, none)
    | some peer ↦ deliver entry.backend_key peer (
        if tls_enabled entry.tls
        then upgrade_backend_tls peer (host_of split_host_port entry.backend_addr) entry.tls dialed
        else (dialed, none))
  ]
]
