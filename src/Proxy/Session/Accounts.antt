-- ===== src/Proxy/Session/Accounts.antt =====
-- What every session leaves behind, however it ends.
use pg_k8s_proxy.Common.{
  ℤ, ◌≤◌, ◌≡◌, refl, [], Bytes, Option, none, some, Bool, true, false, Result, ok, err, Assoc,
  lookup, bytes_keys, codes, All, length, if◌then◌else◌, ◌⊎◌, inl, inr, Bool-cases, Option-cases,
  arith,
}
use pg_k8s_proxy.Wire.Startup.{StartupPacket, CancelRequest, is_cancel_request}
use pg_k8s_proxy.Registry.Resolve.{Route, tls_enabled}
use pg_k8s_proxy.Proxy.Cancel.{CancelRegistry, cancel_keys}
use pg_k8s_proxy.Proxy.Negotiate.{ServerTls, ClientConn, NegotiateError, negotiate}
use pg_k8s_proxy.Proxy.Dial.{
  Endpoint, BackendConn, Dialed, Dialer, DialError, opened, abandoned, not_dialed, dial_backend,
  closed, deliver, forward_cancel, dialed, upgrade_backend_tls, host_of,
}
use pg_k8s_proxy.Proxy.Dial.Policy.{Settled, dial_backend-Settled}
use pg_k8s_proxy.Proxy.Session.{
  World, SessionEnd, requested_database, relay, open_session, use_backend, route_session,
  cancel_session, on_negotiated, is_benign, handle, serve,
}

abbrev pub AreClosed : Option BackendConn → Type 0
AreClosed conn = (c : BackendConn) → conn ≡ some c → c.is_open ≡ false

-- A label of the metrics: the one for what is not routed, or a name that the table holds.
abbrev pub IsLabel : Assoc Bytes Route → Bytes → Type 0
IsLabel table label =
    (label ≡ codes "<unrouted>") ⊎ ((route : Route) × (lookup label table ≡ some route))

-- At most one outcome is counted, a session is not counted as a cancellation too, no connection to
-- a backend stays open, and what is counted is counted under a label.
pub record IsAccounted (table : Assoc Bytes Route) (r : SessionEnd) : Type 0 where
  pub labelled : All (λ c. IsLabel table c.0) r.counted
  pub once : length r.counted ≤ 1
  pub shut : AreClosed r.backend
  pub apart : r.counted ≡ [] ⊎ r.cancellation ≡ none

closed_conn : (c : BackendConn) → AreClosed (some (closed c))
closed_conn c d h = ground arith

deliver-closed :
    (key : CancelRequest) (peer : Endpoint) (u : BackendConn × Option DialError)
    → AreClosed (deliver key peer u).1
deliver-closed key peer (c, some e) = closed_conn c
deliver-closed key peer (c, none) = λ d h. ground arith

forward_cancel-closed :
    (dialer : Dialer) (split_host_port : Bytes → Option (Bytes × Bytes)) (cancels : CancelRegistry)
    (request : CancelRequest)
    → AreClosed (forward_cancel dialer split_host_port cancels request).1
unfolding forward_cancel
forward_cancel-closed dialer split_host_port cancels request =
    elim (Option-cases (lookup request cancels)) [
      | inl l ↦ rw (l, forward_cancel) (λ d h. absurd cc)
      | inr (entry, l) ↦ elim (Option-cases (dialer entry.backend_addr)) [
        | inl a ↦ rw (l, a, forward_cancel) (λ d h. absurd cc)
        | inr (peer, a) ↦
            rw (l, a, forward_cancel)
              (deliver-closed entry.backend_key peer (
                if tls_enabled entry.tls
                then upgrade_backend_tls peer (host_of split_host_port entry.backend_addr) entry.tls
                    dialed
                else (dialed, none)))
      ]
    ]

none_closed : AreClosed none
none_closed c h = absurd cc

module _ (world : World) where
  labelled_session :
      (table : Assoc Bytes Route) (route : Route) (database : Bytes) (p : StartupPacket)
      (c : ClientConn) (peer : Endpoint) (conn : BackendConn) (cancels : CancelRegistry)
      → lookup database table ≡ some route
      → All
          (λ x. IsLabel table x.0)
          (open_session world route database p c peer conn cancels).counted
  unfolding open_session relay
  labelled_session table route database p c peer conn cancels l =
      elim (Bool-cases peer.takes_packet) [
        | inr h ↦ simp (h, open_session) (inr (route, l), tt)
        | inl h ↦ elim (Bool-cases world.clears_deadline) [
          | inr h' ↦ simp (h, h', open_session) tt
          | inl h' ↦ elim (Bool-cases world.clears_backend_deadline) [
            | inr k ↦ simp (h, h', k, open_session) tt
            | inl k ↦ simp (h, h', k, open_session) (inr (route, l), tt)
          ]
        ]
      ]

  open_session-IsAccounted :
      (table : Assoc Bytes Route) (route : Route) (database : Bytes) (p : StartupPacket)
      (c : ClientConn) (peer : Endpoint) (conn : BackendConn) (cancels : CancelRegistry)
      → lookup database table ≡ some route
      → IsAccounted table (open_session world route database p c peer conn cancels)
  unfolding open_session relay
  open_session-IsAccounted table route database p c peer conn cancels l = record {
    labelled = labelled_session table route database p c peer conn cancels l;
    once = ground arith;
    shut = λ d h. ground arith;
    apart = inr (ground arith);
  }

  use_backend-IsAccounted :
      (table : Assoc Bytes Route) (route : Route) (database : Bytes) (p : StartupPacket)
      (c : ClientConn) (cancels : CancelRegistry) (d : Dialed)
      → Settled world.dialer route d
      → lookup database table ≡ some route
      → IsAccounted table (use_backend world route database p c cancels d)
  unfolding use_backend
  use_backend-IsAccounted table route database p c cancels (opened peer conn) s l =
      open_session-IsAccounted table route database p c peer conn cancels l
  use_backend-IsAccounted table route database p c cancels (abandoned e conn) s l = record {
    labelled = (inr (route, l), tt);
    once = omega arith;
    shut = λ d h. ground arith;
    apart = inr refl;
  }
  use_backend-IsAccounted table route database p c cancels (not_dialed e) s l = record {
    labelled = (inr (route, l), tt);
    once = omega arith;
    shut = none_closed;
    apart = inr refl;
  }

  route_session-IsAccounted :
      (table : Assoc Bytes Route) (p : StartupPacket) (c : ClientConn) (cancels : CancelRegistry)
      → IsAccounted table (route_session world table p c cancels)
  unfolding route_session
  route_session-IsAccounted table p c cancels = elim (Option-cases (requested_database p)) [
    | inl q ↦
        rw (q, route_session)
          (record {
            labelled = (inl refl, tt);
            once = omega arith;
            shut = none_closed;
            apart = inr refl;
          })
    | inr (database, q) ↦ elim (Option-cases (lookup database table)) [
      | inl l ↦
          rw (q, l, route_session)
            (record {
              labelled = (inl refl, tt);
              once = omega arith;
              shut = none_closed;
              apart = inr refl;
            })
      | inr (route, l) ↦
          rw (q, l, route_session)
            (use_backend-IsAccounted table route database p c cancels
              (dial_backend world.dialer route) (dial_backend-Settled world.dialer route) l)
    ]
  ]

  on_negotiated-IsAccounted :
      (table : Assoc Bytes Route) (cancels : CancelRegistry)
      (a : ClientConn × Result NegotiateError StartupPacket)
      → IsAccounted table (on_negotiated world table cancels a)
  unfolding on_negotiated cancel_session
  on_negotiated-IsAccounted table cancels (c, err e) = record {
    labelled = elim (Bool-cases (is_benign world e)) [
      | inl g ↦ rw g tt
      | inr g ↦ rw g (inl refl, tt)
    ];
    once = ground arith;
    shut = none_closed;
    apart = inr refl;
  }
  on_negotiated-IsAccounted table cancels (c, ok p) = elim (Bool-cases (is_cancel_request p)) [
    | inl k ↦ rw k (record {
      labelled = tt;
      once = omega arith;
      shut = forward_cancel-closed world.dialer world.split_host_port cancels p.cancel;
      apart = inl refl;
    })
    | inr k ↦ rw k (route_session-IsAccounted table p c cancels)
  ]

  pub handle-IsAccounted :
      (tls : Option ServerTls) (table : Assoc Bytes Route) (cancels : CancelRegistry)
      (input : Bytes)
      → IsAccounted table (handle world tls table cancels input)
  unfolding handle
  handle-IsAccounted tls table cancels input = elim (Bool-cases world.sets_deadline) [
    | inr d ↦
        simp d (record { labelled = tt; once = omega arith; shut = none_closed; apart = inl refl })
    | inl d ↦ simp d (on_negotiated-IsAccounted table cancels (negotiate world.net tls input))
  ]

  -- However a connection is served, refused for want of a slot or handled, at most one outcome is
  -- counted for it, none if it is counted as a cancellation, it is counted under a name that the
  -- table holds or under the one label for what is not routed, whatever the client asked for, and
  -- no connection to a backend is left open.
  pub serve-IsAccounted :
      (acquired : Bool) (limit : ℤ) (tls : Option ServerTls) (table : Assoc Bytes Route)
      (cancels : CancelRegistry) (input : Bytes)
      → IsAccounted table (serve world acquired limit tls table cancels input)
  unfolding serve
  serve-IsAccounted true limit tls table cancels input = handle-IsAccounted tls table cancels input
  serve-IsAccounted false limit tls table cancels input = record {
    labelled = (inl refl, tt);
    once = omega arith;
    shut = none_closed;
    apart = inr refl;
  }
