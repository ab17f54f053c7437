-- ===== src/Proxy/Dial/Policy.antt =====
-- The TLS policy of a route, on the connections that `dialBackend` and `upgradeBackendTLS` return.
use pg_k8s_proxy.Common.{
  ◌≡◌, refl, sym, ap, Bytes, Option, none, some, [], ◌∷◌, true, false, text_eq, inl, inr,
  Bool-cases, Option-cases, Result-cases,
}
use pg_k8s_proxy.Api.{tls_require, tls_verify_ca}
use pg_k8s_proxy.Wire.Io.{read_full}
use pg_k8s_proxy.Registry.Resolve.{TlsConfig, Route, tls_enabled, address}
use pg_k8s_proxy.Proxy.Dial.{
  Endpoint, Dialer, BackendConn, DialError, Dialed, not_dialed, abandoned, opened, client_tls,
  verify_chain_only, secure, upgrade_backend_tls, finish_upgrade, dial_backend, dialed, ssl_request,
  send,
}

-- Nothing but the SSLRequest was sent in the clear, the handshake was done for the policy's names
-- and roots, VerifyCA has a verified chain, and only the modes Require and VerifyCA tell the TLS
-- library to skip its own verification.
pub record IsProtected (peer : Endpoint) (host : Bytes) (t : TlsConfig) (c : BackendConn)
    : Type 0 where
  pub in_clear : c.plain ≡ ssl_request
  pub session : c.tls ≡ some (client_tls host t)
  pub shaken : peer.handshake (client_tls host t) ≡ true
  pub chain : text_eq t.mode tls_verify_ca ≡ true → verify_chain_only peer t.root_cas ≡ none
  pub checked :
      text_eq t.mode tls_verify_ca ≡ false
      → text_eq t.mode tls_require ≡ false
      → (client_tls host t).insecure_skip_verify ≡ false
  pub still_open : c.is_open ≡ true

checks_itself :
    (host : Bytes) (t : TlsConfig)
    → text_eq t.mode tls_verify_ca ≡ false
    → text_eq t.mode tls_require ≡ false
    → (client_tls host t).insecure_skip_verify ≡ false
unfolding client_tls
checks_itself host t v r = rw (v, r) refl

-- The connection on which the handshake starts.
abbrev asked : BackendConn
asked = send dialed ssl_request

-- The connection on which it succeeded.
abbrev secured : Bytes → TlsConfig → BackendConn
secured host t = record asked { tls = some (client_tls host t) }

secured-IsProtected :
    (peer : Endpoint) (host : Bytes) (t : TlsConfig) {c : BackendConn}
    → peer.handshake (client_tls host t) ≡ true
    → (text_eq t.mode tls_verify_ca ≡ true → verify_chain_only peer t.root_cas ≡ none)
    → secured host t ≡ c
    → IsProtected peer host t c
secured-IsProtected peer host t {c} k chain e = record {
  in_clear = sym (ap (λ d. d.plain) e);
  session = sym (ap (λ d. d.tls) e);
  shaken = k;
  chain = chain;
  checked = checks_itself host t;
  still_open = sym (ap (λ d. d.is_open) e);
}

secure-IsProtected :
    (peer : Endpoint) (host : Bytes) (t : TlsConfig) {c : BackendConn}
    → secure peer host t asked ≡ (c, none)
    → IsProtected peer host t c
unfolding secure
secure-IsProtected peer host t {c} h = elim (Bool-cases (peer.handshake (client_tls host t))) [
  | inr k ↦ absurd (cc (rw (k, secure) at h))
  | inl k ↦ elim (Bool-cases (text_eq t.mode tls_verify_ca)) [
    | inl v ↦
        let h' = rw (k, v, secure) at h in
        secured-IsProtected peer host t k (λ _. ap (λ p. p.1) h') (ap (λ p. p.0) h')
    | inr v ↦
        let h' = rw (k, v, secure) at h in
        secured-IsProtected peer host t k (λ w. absurd (cc (v, w))) (ap (λ p. p.0) h')
  ]
]

pub upgrade-IsProtected :
    (peer : Endpoint) (host : Bytes) (t : TlsConfig) {c : BackendConn}
    → upgrade_backend_tls peer host t dialed ≡ (c, none)
    → IsProtected peer host t c
unfolding upgrade_backend_tls
upgrade-IsProtected peer host t {c} h = elim (Bool-cases peer.takes_ssl_request) [
  | inr w ↦ absurd (cc (rw (w, upgrade_backend_tls) at h))
  | inl w ↦ elim (Result-cases (read_full 1 peer.reply)) [
    | inr (e, r) ↦ absurd (cc (rw (w, r, upgrade_backend_tls) at h))
    | inl ((reply, rest), r) ↦ elim (Bool-cases (text_eq reply (b'S' ∷ []))) [
      | inr n ↦ absurd (cc (rw (w, r, n, upgrade_backend_tls) at h))
      | inl n ↦ secure-IsProtected peer host t (rw (w, r, n, upgrade_backend_tls) at h)
    ]
  ]
]

-- A connection that the session may use: to the route's address, and under its policy.
pub record IsServing (dialer : Dialer) (route : Route) (peer : Endpoint) (c : BackendConn)
    : Type 0 where
  pub reached : dialer (address route) ≡ some peer
  pub policy : tls_enabled route.tls ≡ true → IsProtected peer route.host route.tls c
  pub untouched : tls_enabled route.tls ≡ false → c ≡ dialed

abbrev pub Settled : Dialer → Route → Dialed → Type 0
Settled dialer route (not_dialed e) = dialer (address route) ≡ none
Settled dialer route (abandoned e c) = c.is_open ≡ false
Settled dialer route (opened peer c) = IsServing dialer route peer c

finish_upgrade-Settled :
    (dialer : Dialer) (route : Route) (peer : Endpoint) (u : BackendConn × Option DialError)
    → dialer (address route) ≡ some peer
    → tls_enabled route.tls ≡ true
    → upgrade_backend_tls peer route.host route.tls dialed ≡ u
    → Settled dialer route (finish_upgrade peer u)
finish_upgrade-Settled dialer route peer (c, some e) a t h = refl
finish_upgrade-Settled dialer route peer (c, none) a t h = record {
  reached = a;
  policy = λ _. upgrade-IsProtected peer route.host route.tls h;
  untouched = λ f. absurd (cc (t, f));
}

-- Whatever the network and the backend do, `dialBackend` returns a connection to the route's
-- address, which carries nothing yet for a route without TLS and is under the TLS policy of a route
-- with it, or it returns an error: with no connection only if nobody can be reached at that
-- address, and else with the connection closed.
pub dial_backend-Settled :
    (dialer : Dialer) (route : Route) → Settled dialer route (dial_backend dialer route)
unfolding dial_backend
dial_backend-Settled dialer route = elim (Option-cases (dialer (address route))) [
  | inl a ↦ rw (a, dial_backend) a
  | inr (peer, a) ↦ elim (Bool-cases peer.sets_deadline) [
    | inr s ↦ rw (a, dial_backend) (simp s refl)
    | inl s ↦ elim (Bool-cases (tls_enabled route.tls)) [
      | inr t ↦
          rw (a, dial_backend)
            (simp (s, t)
              (record { reached = a; policy = λ f. absurd (cc (t, f)); untouched = λ _. refl }))
      | inl t ↦
          rw (a, dial_backend) (simp (s, t) (finish_upgrade-Settled dialer route peer _ a t refl))
    ]
  ]
]
