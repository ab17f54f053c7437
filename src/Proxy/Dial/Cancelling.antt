-- ===== src/Proxy/Dial/Cancelling.antt =====
-- A cancellation from the key that the gateway issued to the packet that the backend receives.
use pg_k8s_proxy.Common.{
  ◌≡◌, ◌≢◌, refl, sym, ap, ◌∙◌, Bytes, Option, none, some, List, true, false, lookup, inl, inr,
  Bool-cases, Option-cases,
}
use pg_k8s_proxy.Wire.Startup.{CancelRequest, encode_cancel_request}
use pg_k8s_proxy.Registry.Resolve.{Route, tls_enabled, address}
use pg_k8s_proxy.Proxy.Cancel.{CancelRegistry, CancelEntry, cancel_keys, key_eq_iff, issue}
use pg_k8s_proxy.Proxy.Cancel.Issue.{issue-some-Issued}
use pg_k8s_proxy.Proxy.Relay.{entry_for}
use pg_k8s_proxy.Proxy.Dial.{
  Endpoint, Dialer, BackendConn, DialError, upgrade_backend_tls, dialed, closed, send, CancelResult,
  forwarded, unknown_key, host_of, deliver, forward_cancel,
}
use pg_k8s_proxy.Proxy.Dial.Policy.{IsProtected, upgrade-IsProtected}

-- The backend at the route's address received the cancellation of its own key and nothing else, in
-- the TLS session of the route's policy if it has one, and the connection is closed.
pub record IsDelivered (dialer : Dialer) (split_host_port : Bytes → Option (Bytes × Bytes))
    (route : Route) (backend_key : CancelRequest) (c : BackendConn) : Type 0 where
  pub peer : Endpoint
  pub before : BackendConn
  pub reached : dialer (address route) ≡ some peer
  pub delivered : c ≡ closed (send before (encode_cancel_request backend_key))
  pub policy :
      tls_enabled route.tls ≡ true
      → IsProtected peer (host_of split_host_port (address route)) route.tls before
  pub plain : tls_enabled route.tls ≡ false → before ≡ dialed

abbrev pub Answers :
    Dialer
    → (Bytes → Option (Bytes × Bytes))
    → Route
    → CancelRequest
    → CancelResult × Option BackendConn
    → Type 0
Answers dialer split_host_port route backend_key r =
    (r.0 ≢ unknown_key)
    × (r.0 ≡ forwarded
        → (c : BackendConn) × (r.1 ≡ some c)
          × IsDelivered dialer split_host_port route backend_key c)

module _ (dialer : Dialer) (split_host_port : Bytes → Option (Bytes × Bytes)) (route : Route) where
  deliver-Answers :
      (bk : CancelRequest) (peer : Endpoint) (u : BackendConn × Option DialError)
      → dialer (address route) ≡ some peer
      → (tls_enabled route.tls ≡ true
          → u ≡ upgrade_backend_tls peer (host_of split_host_port (address route)) route.tls dialed)
      → (tls_enabled route.tls ≡ false → u ≡ (dialed, none))
      → Answers dialer split_host_port route bk (deliver bk peer u)
  deliver-Answers bk peer (c, some e) a t f = (λ k. absurd cc, λ k. absurd cc)
  deliver-Answers bk peer (c, none) a t f = elim (Bool-cases peer.takes_packet) [
    | inr w ↦ simp w (λ k. absurd cc, λ k. absurd cc)
    | inl w ↦ simp w (
      λ k. absurd cc,
      λ k. (
        _,
        refl,
        record {
          peer = peer;
          before = c;
          reached = a;
          delivered = refl;
          policy = λ s.
              upgrade-IsProtected peer (host_of split_host_port (address route)) route.tls
                (sym (t s));
          plain = λ s. ap (λ p. p.0) (f s);
        },
      ),
    )
  ]

  issued_entry :
      (draws : List Bytes) (entry : CancelEntry) (cancels : CancelRegistry) {key : CancelRequest}
      {after : CancelRegistry} {left : List Bytes}
      → issue draws entry cancels ≡ some (key, after, left)
      → lookup key after ≡ some entry
  issued_entry draws entry cancels {key} i =
      (issue-some-Issued draws entry cancels i).found key ∙ rw ((key_eq_iff key key).1 refl) refl

  -- A request with a key that was issued for a session, before any other change of the registry, is
  -- never discarded as unknown. If it is counted as forwarded, then the backend that the session's
  -- route names received exactly a CancelRequest with the key that this backend had chosen, under
  -- the route's TLS policy, on a connection that is closed again.
  pub forward_cancel-issue :
      (backend_key : CancelRequest) (draws : List Bytes) (cancels : CancelRegistry)
      {key : CancelRequest} {after : CancelRegistry} {left : List Bytes}
      → issue draws (entry_for route backend_key) cancels ≡ some (key, after, left)
      → Answers dialer split_host_port route backend_key
          (forward_cancel dialer split_host_port after key)
  unfolding forward_cancel
  forward_cancel-issue bk draws cancels {key} {after} i =
      rw (issued_entry draws (entry_for route bk) cancels i, forward_cancel)
        (elim (Option-cases (dialer (address route))) [
          | inl a ↦ rw a (λ k. absurd cc, λ k. absurd cc)
          | inr (peer, a) ↦ elim (Bool-cases (tls_enabled route.tls)) [
            | inl t ↦ rw (a, t) (deliver-Answers bk peer _ a (λ _. refl) (λ f. absurd (cc (t, f))))
            | inr t ↦ rw (a, t) (deliver-Answers bk peer _ a (λ f. absurd (cc (t, f))) (λ _. refl))
          ]
        ])
