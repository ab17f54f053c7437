-- ===== src/Health.antt =====
-- src/internal/health/server.go: the probe endpoints, over the state of the process that the checks
-- read. The HTTP server is given; paths are those that net/http has cleaned.
use pg_k8s_proxy.Common.{
  ℕ, Bytes, Option, none, some, Bool, true, false, ◌||◌, codes, text_eq, if◌then◌else◌,
}

-- What the probe handler writes: the status code, and the JSON object's fields.
pub record ProbeReply : Type 0 where
  pub status : ℕ
  pub routes : ℕ
  pub healthy : Bool
  pub error : Option Bytes

-- `handle` of the probe server, on what its check reports and on the number of routes.
unfoldable pub handle_probe : Option Bytes → ℕ → ProbeReply
handle_probe none routes = record { status = 200; routes = routes; healthy = true; error = none }
handle_probe (some e) routes = record {
  status = 503;
  routes = routes;
  healthy = false;
  error = some e;
}

-- A check reads the state and reports an error or none.
abbrev pub Check : Type 0 → Type 0
Check S = S → Option Bytes

-- `Config`, in which each function may be nil.
pub record HealthConfig (S : Type 0) : Type 0 where
  pub live : Option (Check S)
  pub ready : Option (Check S)
  pub route_count : Option (S → ℕ)

pub record Probes (S : Type 0) : Type 0 where
  pub live : Check S
  pub ready : Check S
  pub route_count : S → ℕ

abbrev or_else {ℓ} : {A : Type ℓ} → Option A → A → A
or_else none d = d
or_else (some a) d = a

-- `New`, up to the mux.
abbrev pub new_probes : {S : Type 0} → HealthConfig S → Probes S
new_probes cfg = record {
  live = or_else cfg.live (λ _. none);
  ready = or_else cfg.ready (λ _. none);
  route_count = or_else cfg.route_count (λ _. 0);
}

-- The patterns that are registered.
unfoldable pub check_for : {S : Type 0} → Probes S → Bytes → Option (Check S)
check_for p path =
    if text_eq path (codes "/healthz") || text_eq path (codes "/health")
    then some p.live
    else if text_eq path (codes "/readyz") || text_eq path (codes "/ready")
    then some p.ready
    else none

pub data Response : Type 0 where
  replied : ProbeReply → Response
  unknown_path wrong_method : Response

-- The mux with its handlers: a pattern of GET takes HEAD too.
unfoldable pub respond : {S : Type 0} → Probes S → Bytes → Bytes → S → Response
respond p method path state = elim (check_for p path) [
  | none ↦ unknown_path
  | some check ↦
      if text_eq method (codes "GET") || text_eq method (codes "HEAD")
      then replied (handle_probe (check state) (p.route_count state))
      else wrong_method
]
