-- ===== src/Tests/SpliceTests.antt =====
-- Relays whose backend has stopped: of an idle client, and of one whose data waits to be written.
use pg_k8s_proxy.Common.{◌≢◌, ◌↔◌, refl, none}
use pg_k8s_proxy.Proxy.Splice.{
  Duplex, begun, writing, stopped, Reach, start, by_world, client_sends, backend_stops,
}
use pg_k8s_proxy.Proxy.Splice.Ending.{Ends, relay-Ends}

abbrev idle_client : Duplex
idle_client = record begun { stage = stopped none }

idle_client_reached : Reach idle_client
idle_client_reached = by_world start (backend_stops none refl)

relay-Ends_example : Ends idle_client 5 ↔ (idle_client.copy ≢ writing)
relay-Ends_example = relay-Ends idle_client idle_client_reached (λ h. absurd (cc h))

abbrev stuck : Duplex
stuck = record begun { copy = writing; stage = stopped none }

stuck_reached : Reach stuck
stuck_reached = by_world (by_world start (client_sends refl refl)) (backend_stops none refl)

-- This one does not end, although the gateway closes the client.
stuck_never-Ends : Ends stuck 5 → ⊥
stuck_never-Ends h = (relay-Ends stuck stuck_reached (λ e. absurd (cc e))).0 h refl
