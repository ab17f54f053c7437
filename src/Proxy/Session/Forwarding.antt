-- ===== src/Proxy/Session/Forwarding.antt =====
-- What the backend of a session is sent, and which backend that is.
use pg_k8s_proxy.Common.{
  ◌≡◌, refl, sym, ap, ◌∙◌, [], ◌∷◌, Bytes, Option, some, false, Result, ok, err, Assoc, lookup,
  bytes_keys, is_empty, text_eq, text_eq_iff, codes, if◌then◌else◌, inl, inr, Bool-cases,
  Option-cases, arith,
}
use pg_k8s_proxy.Wire.Startup.{StartupPacket, is_cancel_request, parameter, set_parameter, encode}
use pg_k8s_proxy.Wire.Startup.Params.{find_parameter-replace_parameter}
use pg_k8s_proxy.Registry.Resolve.{Route}
use pg_k8s_proxy.Proxy.Cancel.{CancelRegistry}
use pg_k8s_proxy.Proxy.Negotiate.{ServerTls, ClientConn, NegotiateError, negotiate}
use pg_k8s_proxy.Proxy.Relay.{RelayEnd}
use pg_k8s_proxy.Proxy.Dial.{
  Endpoint, BackendConn, Dialed, opened, abandoned, not_dialed, dial_backend, send, closed,
}
use pg_k8s_proxy.Proxy.Dial.Policy.{IsServing, Settled, dial_backend-Settled}
use pg_k8s_proxy.Proxy.Session.{
  World, SessionEnd, proxied, requested_database, asked_for, rewrite_database, relay, open_session,
  use_backend, route_session, cancel_session, on_negotiated, handle,
}

-- The name that a route makes of a database's.
abbrev pub target_of : Route → Bytes → Bytes
target_of route database =
    if is_empty route.target_database then database else route.target_database

asked_for-set_parameter :
    (p : StartupPacket) (v : Bytes) → asked_for (set_parameter p (codes "database") v) ≡ some v
unfolding asked_for text_eq
asked_for-set_parameter p v =
    rw
      (
        find_parameter-replace_parameter (codes "database") (codes "database") v p.parameters,
        asked_for,
      )
      refl

requested_database-set_parameter :
    (p : StartupPacket) (v : Bytes)
    → is_empty v ≡ false
    → requested_database (set_parameter p (codes "database") v) ≡ some v
unfolding requested_database
requested_database-set_parameter p v e =
    rw (asked_for-set_parameter p v, requested_database) (rw e refl)

-- A client that asked for the database and is served by the route asks its backend for the route's
-- target, and no parameter but the database's is changed.
pub rewrite-requested_database :
    (route : Route) (database : Bytes) (p : StartupPacket)
    → requested_database p ≡ some database
    → (requested_database (rewrite_database route database p) ≡ some (target_of route database))
      × ((k : Bytes)
          → text_eq (codes "database") k ≡ false
          → parameter (rewrite_database route database p) k ≡ parameter p k)
unfolding requested_database asked_for rewrite_database
rewrite-requested_database route database p h = elim (Bool-cases (is_empty route.target_database)) [
  | inl e ↦ rw (e, rewrite_database) (h, λ k n. refl)
  | inr e ↦ elim (Bool-cases (text_eq route.target_database database)) [
    | inl s ↦
        rw (e, s, rewrite_database)
          (h ∙ ap some (sym ((text_eq_iff route.target_database database).0 s)), λ k n. refl)
    | inr s ↦
        let found = find_parameter-replace_parameter (codes "database") in
        rw (e, s, rewrite_database)
          (
            requested_database-set_parameter p route.target_database e,
            λ k n. found k route.target_database p.parameters ∙ simp n refl,
          )
  ]
]

-- A relayed session, from the negotiated packet to what its backend was sent.
pub record IsRouted (world : World) (tls : Option ServerTls) (table : Assoc Bytes Route)
    (input : Bytes) (r : SessionEnd) : Type 0 where
  pub startup : StartupPacket
  pub database : Bytes
  pub route : Route
  pub peer : Endpoint
  pub conn : BackendConn
  pub negotiated : (negotiate world.net tls input).1 ≡ ok startup
  pub no_cancel : is_cancel_request startup ≡ false
  pub asked : requested_database startup ≡ some database
  pub routed : lookup database table ≡ some route
  pub serving : IsServing world.dialer route peer conn
  pub sent :
      r.backend ≡ some (closed (send conn (encode (rewrite_database route database startup))))
  pub counted : r.counted ≡ (database, proxied) ∷ []

module _ (world : World) where
  open_session_inv :
      (route : Route) (database : Bytes) (p : StartupPacket) (c : ClientConn) (peer : Endpoint)
      (conn : BackendConn) (cancels : CancelRegistry) {end : RelayEnd}
      → (open_session world route database p c peer conn cancels).relayed ≡ some end
      → ((open_session world route database p c peer conn cancels).backend
          ≡ some (closed (send conn (encode (rewrite_database route database p)))))
        × ((open_session world route database p c peer conn cancels).counted
            ≡ (database, proxied) ∷ [])
  unfolding open_session relay
  open_session_inv route database p c peer conn cancels h = ground arith

  use_backend_inv :
      (route : Route) (database : Bytes) (p : StartupPacket) (c : ClientConn)
      (cancels : CancelRegistry) (d : Dialed) {end : RelayEnd}
      → Settled world.dialer route d
      → (use_backend world route database p c cancels d).relayed ≡ some end
      → (peer : Endpoint) × (conn : BackendConn) × IsServing world.dialer route peer conn
        × ((use_backend world route database p c cancels d).backend
            ≡ some (closed (send conn (encode (rewrite_database route database p)))))
        × ((use_backend world route database p c cancels d).counted ≡ (database, proxied) ∷ [])
  unfolding use_backend
  use_backend_inv route database p c cancels (opened peer conn) s h =
      let (sent, counted) = open_session_inv route database p c peer conn cancels h in
      (peer, conn, s, sent, counted)
  use_backend_inv route database p c cancels (abandoned e conn) s h = absurd cc
  use_backend_inv route database p c cancels (not_dialed e) s h = absurd cc

  route_session_inv :
      (tls : Option ServerTls) (table : Assoc Bytes Route) (input : Bytes) (p : StartupPacket)
      (c : ClientConn) (cancels : CancelRegistry) {end : RelayEnd}
      → (negotiate world.net tls input).1 ≡ ok p
      → is_cancel_request p ≡ false
      → (route_session world table p c cancels).relayed ≡ some end
      → IsRouted world tls table input (route_session world table p c cancels)
  unfolding route_session
  route_session_inv tls table input p c cancels n k h = elim (Option-cases (requested_database p)) [
    | inl q ↦ absurd (cc (rw (q, route_session) at h))
    | inr (database, q) ↦ elim (Option-cases (lookup database table)) [
      | inl l ↦ absurd (cc (rw (q, l, route_session) at h))
      | inr (route, l) ↦
          let (peer, conn, serving, sent, counted) =
            use_backend_inv route database p c cancels (dial_backend world.dialer route)
              (dial_backend-Settled world.dialer route) (rw (q, l, route_session) at h) in
          record {
            startup = p;
            database = database;
            route = route;
            peer = peer;
            conn = conn;
            negotiated = n;
            no_cancel = k;
            asked = q;
            routed = l;
            serving = serving;
            sent = rw (q, l, route_session) sent;
            counted = rw (q, l, route_session) counted;
          }
    ]
  ]

  on_negotiated_inv :
      (tls : Option ServerTls) (table : Assoc Bytes Route) (cancels : CancelRegistry)
      (input : Bytes) (a : ClientConn × Result NegotiateError StartupPacket) {end : RelayEnd}
      → negotiate world.net tls input ≡ a
      → (on_negotiated world table cancels a).relayed ≡ some end
      → IsRouted world tls table input (on_negotiated world table cancels a)
  unfolding on_negotiated cancel_session
  on_negotiated_inv tls table cancels input (c, err e) n h = absurd cc
  on_negotiated_inv tls table cancels input (c, ok p) n h =
      elim (Bool-cases (is_cancel_request p)) [
        | inl k ↦ absurd (cc (rw k at h))
        | inr k ↦
            rw k (route_session_inv tls table input p c cancels (ap (λ a. a.1) n) k (rw k at h))
      ]

  -- A session is relayed only for a startup packet that was negotiated and is no cancellation, to
  -- the route that the table holds for the database that the packet asks for. Its backend is one
  -- that `dialBackend` returned under that route's policy; the gateway itself sent it exactly the
  -- packet with the route's target, closed the connection at the end, and counted the session once,
  -- as proxied.
  pub handle-IsRouted :
      (tls : Option ServerTls) (table : Assoc Bytes Route) (cancels : CancelRegistry)
      (input : Bytes) {end : RelayEnd}
      → (handle world tls table cancels input).relayed ≡ some end
      → IsRouted world tls table input (handle world tls table cancels input)
  unfolding handle
  handle-IsRouted tls table cancels input h = elim (Bool-cases world.sets_deadline) [
    | inr d ↦ absurd (cc (simp (d, handle) at h))
    | inl d ↦ simp d (
        on_negotiated_inv tls table cancels input (negotiate world.net tls input) refl
          (simp d at h))
  ]
