-- ===== src/Tests/SessionTests.antt =====
-- Whole sessions: a client without TLS, a route that demands verified TLS, and its backend.
use pg_k8s_proxy.Common.{
  pos, ◌≡◌, refl, Bytes, [], ◌∷◌, ◌++◌, Option, none, some, ok, err, codes, lookup, Assoc,
  bytes_keys, text_eq, true, false, arith, ◌<◌, length,
}
use pg_k8s_proxy.Wire.Io.{read_full, index_byte}
use pg_k8s_proxy.Wire.Startup.{
  Parameter, StartupPacket, CancelRequest, no_cancel, protocol_version3, parameters_size,
  put_parameters, encode, read_startup_packet, decode_body, parse_parameters, parse_loop,
  read_c_string, find_parameter,
}
use pg_k8s_proxy.Wire.Startup.RoundTrip.{IsStartup}
use pg_k8s_proxy.Wire.Startup.Params.{IsParameter}
use pg_k8s_proxy.Wire.Message.{Message}
use pg_k8s_proxy.Registry.Resolve.{Route, tls_enabled}
use pg_k8s_proxy.Proxy.Cancel.{cancel_keys}
use pg_k8s_proxy.Proxy.Negotiate.{
  Network, negotiate, negotiate_loop, on_packet, on_startup, max_negotiation_rounds,
  too_many_rounds,
}
use pg_k8s_proxy.Proxy.Negotiate.Outcome.{Outcome, negotiate-Outcome}
use pg_k8s_proxy.Proxy.Negotiate.Declines.{put_requests, refusals, negotiate_declines}
use pg_k8s_proxy.Proxy.Relay.{all, relay_from_backend}
use pg_k8s_proxy.Proxy.Relay.Framed.{IsPlain}
use pg_k8s_proxy.Proxy.Relay.Startup.{IsReady, startup_stream, relay_startup}
use pg_k8s_proxy.Proxy.Dial.{
  Endpoint, Dialer, upgrade_backend_tls, secure, client_tls, dial_backend, forward_cancel,
}
use pg_k8s_proxy.Proxy.Dial.Policy.{Settled, dial_backend-Settled}
use pg_k8s_proxy.Proxy.Dial.Cancelling.{Answers, forward_cancel-issue}
use pg_k8s_proxy.Proxy.Session.{
  World, serve, handle, on_negotiated, route_session, use_backend, open_session, relay,
  requested_database, asked_for,
}
use pg_k8s_proxy.Proxy.Session.Forwarding.{IsRouted, handle-IsRouted}
use pg_k8s_proxy.Proxy.Session.Accounts.{IsAccounted, serve-IsAccounted}
use pg_k8s_proxy.Tests.ProxyTests.{
  test_route, backend_key, one_session, first_draw, second_draw, second_key, two_sessions, issued,
}

abbrev test_endpoint : Endpoint
test_endpoint = record {
  sets_deadline = true;
  takes_ssl_request = true;
  takes_packet = true;
  reply = b'S' ∷ [];
  handshake = λ _. true;
  peer_certificates = codes "leaf" ∷ [];
  verify = λ _ _ _. true;
}

abbrev test_dialer : Dialer
test_dialer _ = some test_endpoint

dial_backend-Settled_example : Settled test_dialer test_route (dial_backend test_dialer test_route)
dial_backend-Settled_example = dial_backend-Settled test_dialer test_route

abbrev split_nothing : Bytes → Option (Bytes × Bytes)
split_nothing _ = none

forward_cancel-issue_example :
    Answers test_dialer split_nothing test_route backend_key
      (forward_cancel test_dialer split_nothing two_sessions second_key)
forward_cancel-issue_example =
    forward_cancel-issue test_dialer split_nothing test_route backend_key
      (first_draw ∷ second_draw ∷ []) one_session issued

abbrev test_net : Network
test_net = record { write_succeeds = λ _. true; handshake = λ _. none }

abbrev database : Parameter
database = record { key = codes "database"; value = codes "orders" }

abbrev pub client_packet : StartupPacket
client_packet = record { code = protocol_version3; parameters = database ∷ []; cancel = no_cancel }

database-IsParameter : IsParameter database
database-IsParameter = record {
  key_text = omega arith;
  key_some = λ e. cc;
  value_text = omega arith;
}

client_packet-IsStartup : IsStartup client_packet
unfolding parameters_size
client_packet-IsStartup = record {
  word = omega arith;
  version = refl;
  parameters = (database-IsParameter, tt);
  fits = omega arith;
  not_cancel = refl;
}

negotiate-Outcome_example :
    Outcome none max_negotiation_rounds
      (record { input = encode client_packet; encrypted = false; sent = [] })
      (negotiate test_net none (encode client_packet))
negotiate-Outcome_example = negotiate-Outcome test_net none (encode client_packet)

abbrev plain : Message
plain = record { type = b'R'; body = 0 ∷ 0 ∷ 0 ∷ 0 ∷ [] }

plain-IsPlain : IsPlain plain
plain-IsPlain = record { no_key = refl; not_ready = refl; fits = omega arith }

abbrev ready : Message
ready = record { type = b'Z'; body = b'I' ∷ [] }

ready-IsReady : IsReady ready
ready-IsReady = record { no_key = refl; ready = refl; fits = omega arith }

abbrev pub test_world : World
test_world = record {
  net = test_net;
  dialer = test_dialer;
  split_host_port = split_nothing;
  quote = λ s. s;
  hung_up = true;
  sets_deadline = true;
  clears_deadline = true;
  clears_backend_deadline = true;
  draws = first_draw ∷ [];
  backend_stream = startup_stream (plain ∷ []) backend_key [] ready (codes "data");
  client_write = λ _. all;
  copy_down = all;
  copy_up = all;
}

abbrev test_table : Assoc Bytes Route
test_table = (codes "orders", test_route) ∷ []

serve-IsAccounted_example :
    IsAccounted test_table (serve test_world true (pos 0) none test_table [] (encode client_packet))
serve-IsAccounted_example =
    serve-IsAccounted test_world true (pos 0) none test_table [] (encode client_packet)

negotiate_declines_example :
    (length (true ∷ []) < max_negotiation_rounds
      → negotiate test_net none (put_requests (true ∷ []) (encode client_packet ++ []))
        ≡ (record { input = []; encrypted = false; sent = refusals (true ∷ []) }, ok client_packet))
    × (length (true ∷ []) ≡ max_negotiation_rounds
        → (negotiate test_net none (put_requests (true ∷ []) [])).1 ≡ err too_many_rounds)
negotiate_declines_example =
    negotiate_declines test_net (λ _. refl) (true ∷ []) client_packet [] client_packet-IsStartup

asks_orders : requested_database client_packet ≡ some (codes "orders")
unfolding requested_database asked_for find_parameter text_eq
asks_orders = refl

relay_startup_example :
    let stream = startup_stream (plain ∷ []) backend_key [] ready (codes "data") in
    let expected = startup_stream (plain ∷ []) second_key [] ready (codes "data") in
    let served =
      relay_from_backend test_route
        (λ _. all)
        all
        one_session
        (first_draw ∷ second_draw ∷ [])
        stream in
    (served.0.state.sent ≡ expected)
    × (served.0.outcome ≡ none)
    × (served.0.counted ≡ length expected)
    × ((j : CancelRequest) → lookup j served.1 ≡ lookup j one_session)
relay_startup_example =
    relay_startup test_route (λ _. all) (λ _. refl) (plain ∷ []) backend_key [] ready (codes "data")
      one_session (first_draw ∷ second_draw ∷ []) (plain-IsPlain, tt) (omega arith, omega arith) tt
      ready-IsReady issued

pub negotiated_packet :
    negotiate test_net none (encode client_packet)
    ≡ (record { input = []; encrypted = false; sent = [] }, ok client_packet)
unfolding negotiate negotiate_loop on_packet on_startup read_startup_packet decode_body
    parse_parameters parse_loop read_c_string read_full index_byte encode put_parameters
    parameters_size
negotiated_packet = refl

is_relayed :
    (handle test_world none test_table [] (encode client_packet)).relayed
    ≡ some
        (relay_from_backend test_route
          (λ _. all)
          all
          []
          (first_draw ∷ [])
          (startup_stream (plain ∷ []) backend_key [] ready (codes "data"))).0
unfolding handle on_negotiated route_session use_backend open_session relay requested_database
    asked_for find_parameter text_eq lookup dial_backend tls_enabled upgrade_backend_tls secure
    client_tls read_full
is_relayed = rw (negotiated_packet, handle) refl

handle-IsRouted_example :
    IsRouted test_world none test_table
      (encode client_packet)
      (handle test_world none test_table [] (encode client_packet))
handle-IsRouted_example =
    handle-IsRouted test_world none test_table [] (encode client_packet) is_relayed
