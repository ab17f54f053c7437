-- ===== src/Tests/ServerTests.antt =====
-- A server with one slot: a connection that is served, a shutdown, and the end of the session.
use pg_k8s_proxy.Common.{◌≡◌, ◌≤◌, refl, some, true, false, inl}
use pg_k8s_proxy.Proxy.Server.{
  Server, listening_server, at_phase, tracked, track, admit, acquire_slot, end_session,
  release_slot, leave, untrack, finish, on_accept, on_accept_error, returns, Step, Reach, start,
  later, cancels, accepts, accept_fails, tracks, admits, ends, leaves, finishes, drained,
}
use pg_k8s_proxy.Proxy.Server.Books.{in_handle}
use pg_k8s_proxy.Proxy.Server.Gate.{GateStep, gate_of, event_of, step_refines, sessions_limited}
use pg_k8s_proxy.Proxy.Server.Draining.{IsSettled, returned-IsSettled}
use pg_k8s_proxy.Proxy.Server.Shutdown.{Run, Returns, remaining, drain-Returns}

abbrev idle_server : Server
idle_server = listening_server (some 1)

abbrev accepted_one : Server
accepted_one = on_accept idle_server

abbrev tracked_one : Server
tracked_one = at_phase 0 tracked (track 0 accepted_one)

abbrev serving_one : Server
serving_one = admit 0 tracked_one

abbrev cancelled_one : Server
cancelled_one = record serving_one { cancelled = true }

abbrev pub draining_one : Server
draining_one = on_accept_error false 0 cancelled_one

abbrev over_one : Server
over_one = finish 0 (leave 0 (end_session 0 draining_one))

tracked_one_reached : Reach (some 1) tracked_one
unfolding on_accept track
tracked_one_reached = later (later start (accepts 0 refl)) (tracks 0 refl)

abbrev admission : Step tracked_one serving_one
admission = admits 0 refl

pub draining_one_reached : Reach (some 1) draining_one
unfolding on_accept track admit acquire_slot on_accept_error
draining_one_reached =
    later (later (later tracked_one_reached (admits 0 refl)) cancels) (accept_fails 0 false refl)

over_one_reached : Reach (some 1) (returns false over_one)
unfolding on_accept track untrack admit acquire_slot on_accept_error end_session release_slot leave
    finish
over_one_reached =
    later
      (later (later (later draining_one_reached (ends 0 refl)) (leaves 0 refl)) (finishes 0 refl))
      (drained false refl refl)

step_refines_example : GateStep (gate_of tracked_one) (event_of admission) (gate_of serving_one)
step_refines_example = step_refines tracked_one_reached admission

sessions_limited_example :
    (in_handle draining_one ≤ 1) × (draining_one.slots ≡ in_handle draining_one)
sessions_limited_example = sessions_limited draining_one_reached

returned-IsSettled_example : IsSettled (returns false over_one)
returned-IsSettled_example = returned-IsSettled over_one_reached refl

drain-Returns_example :
    (t : Server) × Run draining_one (remaining draining_one) t
    × (t.main ≡ draining_one.main)
    × Returns false t
unfolding on_accept_error
drain-Returns_example = drain-Returns draining_one false draining_one_reached (inl refl)
