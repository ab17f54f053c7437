-- ===== src/Proxy/Session.antt =====
-- src/internal/proxy/session.go: `serve` and `handle`, one connection from its first byte to its
-- last, with `relay` of src/internal/proxy/relay.go and `databaseLabel` of
-- src/internal/proxy/metrics.go. The other sessions of the gateway leave the registry alone
-- meanwhile.
pub mod Forwarding
pub mod Accounts
use pg_k8s_proxy.Common.{
  ℕ, ℤ, ◌∷◌, [], ◌++◌, Bytes, Option, none, some, List, Bool, true, false, not, ◌&&◌, Result, ok,
  err, Assoc, lookup, is_empty, text_eq, codes, if◌then◌else◌, bytes_keys,
}
use pg_k8s_proxy.Wire.Io.{WireError, is_benign_close}
use pg_k8s_proxy.Wire.Startup.{StartupPacket, is_cancel_request, parameter, set_parameter, encode}
use pg_k8s_proxy.Wire.Message.{
  sql_state_too_many_connections, sql_state_protocol_violation, sql_state_undefined_database,
  sql_state_connection_failure,
}
use pg_k8s_proxy.Registry.Resolve.{Route}
use pg_k8s_proxy.Registry.Address.{itoa}
use pg_k8s_proxy.Proxy.Cancel.{CancelRegistry}
use pg_k8s_proxy.Proxy.Negotiate.{
  ServerTls, Network, ClientConn, NegotiateError, reading_startup, declining_tls, accepting_tls,
  tls_handshake, declining_gss, write_fatal, negotiate,
}
use pg_k8s_proxy.Proxy.Relay.{
  Written, all, partly, RelayError, RelayEnd, unless_benign, splicing, relay_from_backend,
}
use pg_k8s_proxy.Proxy.Dial.{
  Endpoint, Dialer, BackendConn, Dialed, not_dialed, abandoned, opened, CancelResult, dial_backend,
  forward_cancel, send, closed,
}

-- The outcomes that `connectionsTotal` counts in a session.
pub data ConnOutcome : Type 0 where
  rejected handshake_failed no_route backend_failed proxied : ConnOutcome

pub data HandleError : Type 0 where
  setting_deadline clearing_deadline clearing_backend_deadline : HandleError
  negotiating : NegotiateError → HandleError
  no_database forwarding_startup : HandleError
  -- What `errors.Join` joins, the error of the backend's half first.
  relaying : Option RelayError → Option RelayError → HandleError

-- What the network and the libraries do in a session.
pub record World : Type 0 where
  pub net : Network
  pub dialer : Dialer
  pub split_host_port : Bytes → Option (Bytes × Bytes)
  -- The verb `%q` of `fmt`.
  pub quote : Bytes → Bytes
  -- Whether an error of a write to the client or of its TLS handshake says that the client hung up.
  pub hung_up : Bool
  pub sets_deadline : Bool
  pub clears_deadline : Bool
  pub clears_backend_deadline : Bool
  -- The bytes that `rand.Read` gives, and those that the backend sends after the startup packet.
  pub draws : List Bytes
  pub backend_stream : Bytes
  -- What becomes of the writes to the client and of the two copies.
  pub client_write : ℕ → Written
  pub copy_down : Written
  pub copy_up : Written

pub record SessionEnd : Type 0 where
  pub counted : List (Bytes × ConnOutcome)
  pub cancellation : Option CancelResult
  pub client : ClientConn
  pub backend : Option BackendConn
  pub relayed : Option RelayEnd
  pub cancels : CancelRegistry
  pub error : Option HandleError

abbrev pub database_label : Bytes → Bool → Bytes
database_label database routed = if routed then database else codes "<unrouted>"

abbrev pub unrouted : Bytes
unrouted = codes "<unrouted>"

-- The database that a startup packet asks for: the parameter, or else the user's name.
unfoldable pub asked_for : StartupPacket → Option Bytes
asked_for p = elim (parameter p (codes "database")) [
  | some database ↦ some database
  | none ↦ parameter p (codes "user")
]

-- The same behind the test for an empty name.
unfoldable pub requested_database : StartupPacket → Option Bytes
requested_database p = elim (asked_for p) [
  | none ↦ none
  | some database ↦ if is_empty database then none else some database
]

unfoldable pub rewrite_database : Route → Bytes → StartupPacket → StartupPacket
rewrite_database route database p =
    if not (is_empty route.target_database) && not (text_eq route.target_database database)
    then set_parameter p (codes "database") route.target_database
    else p

-- An error of the copy from the client, unless it is benign.
abbrev pub upstream_error : Written → Option RelayError
upstream_error all = none
upstream_error (partly _ benign) = unless_benign benign splicing

abbrev pub join_errors : Option RelayError → Option RelayError → Option HandleError
join_errors none none = none
join_errors down up = some (relaying down up)

module _ (world : World) where
  -- A session that ends here.
  abbrev pub ends :
      List (Bytes × ConnOutcome) → ClientConn → CancelRegistry → Option HandleError → SessionEnd
  ends counted client cancels error = record {
    counted = counted;
    cancellation = none;
    client = client;
    backend = none;
    relayed = none;
    cancels = cancels;
    error = error;
  }

  -- `relay`, on the connection to the backend, which is closed behind it.
  unfoldable pub relay : Route → Bytes → ClientConn → BackendConn → CancelRegistry → SessionEnd
  relay route label client conn cancels =
      let (end, cancels') =
        relay_from_backend route world.client_write world.copy_down cancels world.draws
          world.backend_stream in
      record (ends ((label, proxied) ∷ []) client cancels'
        (join_errors end.outcome (upstream_error world.copy_up))) {
          backend = some (closed conn);
          relayed = some end;
        }

  -- From the startup packet's way to the backend on.
  unfoldable pub open_session :
      Route
      → Bytes
      → StartupPacket
      → ClientConn
      → Endpoint
      → BackendConn
      → CancelRegistry
      → SessionEnd
  open_session route database startup client peer conn cancels =
      let label = database_label database true in
      let conn' = send conn (encode (rewrite_database route database startup)) in
      if not peer.takes_packet
      then record (ends ((label, backend_failed) ∷ []) client cancels (some forwarding_startup)) {
        backend = some (closed conn);
      }
      else if not world.clears_deadline
      then record (ends [] client cancels (some clearing_deadline)) {
        backend = some (closed conn');
      }
      else if not world.clears_backend_deadline
      then record (ends [] client cancels (some clearing_backend_deadline)) {
        backend = some (closed conn');
      }
      else relay route label client conn' cancels

  -- What the client is told if the backend cannot be reached.
  abbrev pub unreachable : Bytes → ClientConn → CancelRegistry → SessionEnd
  unreachable database client cancels =
      ends ((database_label database true, backend_failed) ∷ [])
        (write_fatal world.net client sql_state_connection_failure
          (codes "the gateway could not reach the backend for database " ++ world.quote database)
          (codes "Check the status of the PostgresRoute and of the backend Service."))
        cancels none

  -- The failure of `dialBackend`, or the session on the connection.
  unfoldable pub use_backend :
      Route → Bytes → StartupPacket → ClientConn → CancelRegistry → Dialed → SessionEnd
  use_backend route database startup client cancels (opened peer conn) =
      open_session route database startup client peer conn cancels
  use_backend route database startup client cancels (abandoned _ conn) =
      record (unreachable database client cancels) { backend = some conn }
  use_backend route database startup client cancels (not_dialed _) =
      unreachable database client cancels

  -- From the negotiated startup packet on.
  unfoldable pub route_session :
      Assoc Bytes Route → StartupPacket → ClientConn → CancelRegistry → SessionEnd
  route_session table startup client cancels = elim (requested_database startup) [
    | none ↦
        ends ((unrouted, handshake_failed) ∷ [])
          (write_fatal world.net client sql_state_protocol_violation
            (codes "startup message carried neither a database nor a user parameter") [])
          cancels (some no_database)
    | some database ↦ elim (lookup database table) [
      | none ↦
          ends ((unrouted, no_route) ∷ [])
            (write_fatal world.net client sql_state_undefined_database
              (codes "database " ++ (world.quote database ++ codes " does not exist"))
              (codes "No PostgresRoute in this cluster claims that database name."))
            cancels none
      | some route ↦
          use_backend route database startup client cancels (dial_backend world.dialer route)
    ]
  ]

  unfoldable pub cancel_session : StartupPacket → ClientConn → CancelRegistry → SessionEnd
  cancel_session startup client cancels =
      let (result, conn) =
        forward_cancel world.dialer world.split_host_port cancels startup.cancel in
      record (ends [] client cancels none) { cancellation = some result; backend = conn }

  -- `isBenignClose` of what `negotiate` returns.
  unfoldable pub is_benign : NegotiateError → Bool
  is_benign (reading_startup e) = is_benign_close e
  is_benign declining_tls = world.hung_up
  is_benign accepting_tls = world.hung_up
  is_benign tls_handshake = world.hung_up
  is_benign declining_gss = world.hung_up
  is_benign _ = false

  unfoldable pub on_negotiated :
      Assoc Bytes Route
      → CancelRegistry
      → ClientConn × Result NegotiateError StartupPacket
      → SessionEnd
  on_negotiated table cancels (client, err e) =
      ends (if is_benign e then [] else (unrouted, handshake_failed) ∷ []) client cancels
        (some (negotiating e))
  on_negotiated table cancels (client, ok startup) =
      if is_cancel_request startup
      then cancel_session startup client cancels
      else route_session table startup client cancels

  unfoldable pub handle : Option ServerTls → Assoc Bytes Route → CancelRegistry → Bytes → SessionEnd
  handle tls table cancels input =
      if not world.sets_deadline
      then ends [] (record { input = input; encrypted = false; sent = [] }) cancels
          (some setting_deadline)
      else on_negotiated table cancels (negotiate world.net tls input)

  -- `serve` between `track` and `untrack`, with what `acquireSlot` answered and the limit.
  unfoldable pub serve :
      Bool → ℤ → Option ServerTls → Assoc Bytes Route → CancelRegistry → Bytes → SessionEnd
  serve acquired limit tls table cancels input =
      if not acquired
      then ends ((unrouted, rejected) ∷ [])
          (write_fatal world.net (record { input = input; encrypted = false; sent = [] })
            sql_state_too_many_connections (codes "too many connections for the PostgreSQL gateway")
            (codes "The gateway is configured to allow at most "
              ++ (itoa limit ++ codes " concurrent connections.")))
          cancels none
      else handle tls table cancels input
