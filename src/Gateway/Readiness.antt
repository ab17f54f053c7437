-- ===== src/Gateway/Readiness.antt =====
-- What the probes say of a process that runs a gateway.
use pg_k8s_proxy.Common.{
  ℕ, ◌≡◌, ◌↔◌, refl, ap, ◌⊎◌, inl, inr, Bytes, Option, none, some, Bool, Assoc, codes, text_eq,
  Bool-cases, arith,
}
use pg_k8s_proxy.Registry.Resolve.{Route}
use pg_k8s_proxy.Proxy.Server.{Server, unstarted, returned, Life}
use pg_k8s_proxy.Proxy.Server.Listening.{listening_iff}
use pg_k8s_proxy.Health.{Response, replied, handle_probe, check_for, respond}
use pg_k8s_proxy.Gateway.{Process, not_ready, process_probes}

-- The status code of a GET, where there is one.
abbrev pub status_of : Response → Option ℕ
status_of (replied r) = some r.status
status_of _ = none

abbrev pub status_at : Bytes → Process → Option ℕ
status_at path p = status_of (respond process_probes (codes "GET") path p)

abbrev pub with_gateway : Server → Assoc Bytes Route → Process
with_gateway s routes = record { gateway = some s; routes = routes }

abbrev number : Option ℕ → ℕ
number none = 0
number (some n) = n

answers_differ : ◌≡◌ {A = Option ℕ} (some 200) (some 503) → ⊥
answers_differ e = absurd (omega (arith, ap number e))

-- Of a process with a gateway, from the gateway's making on: liveness is always reported, under
-- both of its paths; readiness is reported alike under both of its paths, it is denied exactly
-- before the gateway's Listen has succeeded and after its `Start` has returned, and reported
-- otherwise, so while the gateway drains and accepts no connection, too.
pub ready_iff :
    {capacity : Option ℕ} (s : Server) (routes : Assoc Bytes Route)
    → Life capacity s
    → let p = with_gateway s routes in
      (status_at (codes "/healthz") p ≡ some 200)
      × (status_at (codes "/health") p ≡ some 200)
      × (status_at (codes "/ready") p ≡ status_at (codes "/readyz") p)
      × ((status_at (codes "/readyz") p ≡ some 200) ⊎ (status_at (codes "/readyz") p ≡ some 503))
      × ((status_at (codes "/readyz") p ≡ some 503)
          ↔ ((s.main ≡ unstarted) ⊎ ((failed : Bool) × (s.main ≡ returned failed))))
unfolding respond check_for text_eq not_ready handle_probe
ready_iff s routes r =
    let down = listening_iff r in
    elim (Bool-cases s.listening) [
      | inl l ↦ simp l (
        refl,
        refl,
        refl,
        inl refl,
        ((λ e. absurd (answers_differ e)), (λ over. absurd (cc (l, down.1 over)))),
      )
      | inr l ↦ simp l (refl, refl, refl, inr refl, ((λ e. down.0 l), (λ over. refl)))
    ]
