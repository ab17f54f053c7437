-- ===== src/Tests/SystemTests.antt =====
-- A session behind a rebuilt table, the listing of the table, the probes, and the parts of a
-- process.
use mathlib.Core.List.Perm
use pg_k8s_proxy.Common.{
  pos, ◌≡◌, ◌⊎◌, ◌↔◌, refl, Bytes, [], none, some, Bool, true, codes, lookup, insert, bytes_keys,
  text_eq, length,
}
use pg_k8s_proxy.Api.{key_of, tls_disable, effective_database, effective_target_database}
use pg_k8s_proxy.Wire.Io.{read_full}
use pg_k8s_proxy.Wire.Startup.{encode, find_parameter}
use pg_k8s_proxy.Registry.Resolve.{Route, resolve, tls_enabled}
use pg_k8s_proxy.Registry.Build.{build, build_step, build_loop, sort_routes, insert_route}
use pg_k8s_proxy.Registry.Table.{databases, table_len}
use pg_k8s_proxy.Registry.Table.Sorted.{Ascending, has_name}
use pg_k8s_proxy.Registry.Table.Names.{names_of, is_some, databases-build}
use pg_k8s_proxy.Proxy.Relay.{RelayEnd, relay_from_backend}
use pg_k8s_proxy.Proxy.Dial.{dial_backend, upgrade_backend_tls, secure, client_tls}
use pg_k8s_proxy.Proxy.Session.{
  handle, on_negotiated, route_session, use_backend, open_session, relay, requested_database,
  asked_for,
}
use pg_k8s_proxy.Controller.RouteTable.{change, schedule, on_trigger, on_timer, publish}
use pg_k8s_proxy.Controller.RouteTable.Settling.{IsQuiet}
use pg_k8s_proxy.Tests.RegistryTests.{old_route, two_routes, no_resolver}
use pg_k8s_proxy.Tests.ClusterTests.{rebuilt, rebuilt-Reach, domain}
use pg_k8s_proxy.Tests.SessionTests.{test_world, client_packet, negotiated_packet}
use pg_k8s_proxy.Tests.ServerTests.{draining_one, draining_one_reached}
use pg_k8s_proxy.Tests.ConfigTests.{test_host, test_files, with_tls, with_tls_valid}
use pg_k8s_proxy.Proxy.Server.{unstarted, returned, listened}
use pg_k8s_proxy.Gateway.Readiness.{status_at, with_gateway, ready_iff}
use pg_k8s_proxy.Wiring.{Platform, prepare}
use pg_k8s_proxy.Wiring.Roles.{IsFaultless, Prepared, prepare-Prepared}
use pg_k8s_proxy.Registry.Build.{Decision}
use pg_k8s_proxy.Registry.Build.Rounds.{here}
use pg_k8s_proxy.Registry.Table.{decision_of}
use pg_k8s_proxy.Controller.Status.{desired_status}
use pg_k8s_proxy.Tests.StatusTests.{test_library, test_library-IsLawful, no_status}
use pg_k8s_proxy.System.Honesty.{Honest, desired_status-Honest}
use pg_k8s_proxy.System.Delivery.{Delivered, session-Delivered}

databases-build_example :
    let t = (build no_resolver (codes "cluster.local") two_routes).table in
    Ascending (databases names_of t)
    × ((n : Bytes) → has_name n (databases names_of t) ≡ is_some (lookup n t))
    × (length (databases names_of t) ≡ table_len t)
databases-build_example =
    databases-build names_of no_resolver (codes "cluster.local") two_routes
      (λ t. Perm.refl (names_of t))

ready_iff_example :
    let p = with_gateway draining_one [] in
    (status_at (codes "/healthz") p ≡ some 200)
    × (status_at (codes "/health") p ≡ some 200)
    × (status_at (codes "/ready") p ≡ status_at (codes "/readyz") p)
    × ((status_at (codes "/readyz") p ≡ some 200) ⊎ (status_at (codes "/readyz") p ≡ some 503))
    × ((status_at (codes "/readyz") p ≡ some 503) ↔ (
        (draining_one.main ≡ unstarted)
        ⊎ ((failed : Bool) × (draining_one.main ≡ returned failed))))
ready_iff_example = ready_iff draining_one [] (listened draining_one_reached)

abbrev test_platform : Platform
test_platform = record {
  registers_types = true;
  creates_manager = true;
  adds = λ _. true;
  manager_error = none;
}

test_platform-IsFaultless : IsFaultless test_platform
test_platform-IsFaultless = record { types = refl; manager = refl; adds = λ part. refl }

prepare-Prepared_example :
    Prepared test_files test_host with_tls with_tls_valid.0
      (prepare test_platform test_files with_tls_valid.0)
prepare-Prepared_example =
    prepare-Prepared test_platform test_files test_host with_tls test_platform-IsFaultless
      with_tls_valid.1

rebuilt-IsQuiet : IsQuiet rebuilt
unfolding change schedule on_trigger on_timer publish
rebuilt-IsQuiet = record { delivered = refl; taken = refl; unset = refl; at_select = refl }

abbrev orders_route : Route
orders_route = record {
  source = key_of old_route;
  database = codes "orders";
  target_database = codes "orders";
  host = codes "db";
  port = pos 5432;
  tls = record { mode = tls_disable; root_cas = none; server_name = [] };
}

rebuilt_routes : lookup (codes "orders") rebuilt.store.table ≡ some orders_route
unfolding publish build build_loop build_step sort_routes insert_route insert lookup text_eq
    effective_database effective_target_database resolve
rebuilt_routes = refl

abbrev orders_end : RelayEnd
orders_end =
    (relay_from_backend orders_route test_world.client_write test_world.copy_down []
      test_world.draws test_world.backend_stream).0

orders_relayed :
    (handle test_world none rebuilt.store.table [] (encode client_packet)).relayed ≡ some orders_end
unfolding handle on_negotiated route_session use_backend open_session relay requested_database
    asked_for find_parameter text_eq dial_backend tls_enabled upgrade_backend_tls secure client_tls
    read_full publish build build_loop build_step sort_routes insert_route insert lookup
    effective_database effective_target_database resolve
orders_relayed = rw (negotiated_packet, handle) refl

session-Delivered_example :
    Delivered test_world domain rebuilt.cluster
      (handle test_world none rebuilt.store.table [] (encode client_packet))
unfolding publish
session-Delivered_example =
    session-Delivered test_world domain none [] (encode client_packet) rebuilt-Reach rebuilt-IsQuiet
      refl orders_relayed

desired_status-Honest_example :
    (d : Decision) × (decision_of rebuilt.store (key_of old_route) ≡ some d)
    × Honest test_library rebuilt.store rebuilt.cluster.routes old_route
        (desired_status test_library old_route d no_status)
unfolding publish on_timer on_trigger schedule change
desired_status-Honest_example =
    desired_status-Honest test_library domain old_route no_status test_library-IsLawful
      rebuilt-Reach rebuilt-IsQuiet refl (tt, tt) (here refl)
