-- ===== src/Wiring.antt =====
-- src/cmd/pg-k8s-proxy/run.go: `run`, the parts of the process that it registers with the manager
-- for its settings. The scheme and the manager are controller-runtime's, and are given by whether
-- their calls succeed.
pub mod Command
pub mod Parts
pub mod Roles
use pg_k8s_proxy.Common.{
  ℕ, ℤ, pos, Bytes, Option, none, some, List, [], ◌∷◌, ◌++◌, Bool, true, false, not, Result, ok,
  err, fail_if, ◌>>=◌, ◌>>◌, codes, if◌then◌else◌,
}
use pg_k8s_proxy.Config.{Settings, Selector, runs_proxy, runs_manager}
use pg_k8s_proxy.Proxy.Server.{Config}
use pg_k8s_proxy.Controller.RouteTable.Setup.{BuilderError, BuilderReady, setup_builder}
use pg_k8s_proxy.Controller.Discovery.Events.{SetupError, setup}
use pg_k8s_proxy.Gateway.{TlsFiles, GatewayError, new_gateway, cache_namespaces}

-- What is registered.
pub data Part : Type 0 where
  table_builder : BuilderReady → Part
  status_reconciler : Part
  discovery_reconciler : Selector → Bytes → Part
  gateway : Config → Option ℕ → Part
  probes : Bytes → Part

-- `NeedLeaderElection` of the builder, the gateway and the probes; a controller needs it, which is
-- controller-runtime's default.
unfoldable pub needs_leader_election : Part → Bool
needs_leader_election (table_builder ready) = false
needs_leader_election status_reconciler = true
needs_leader_election (discovery_reconciler selector annotation) = true
needs_leader_election (gateway config slots) = false
needs_leader_election (probes address) = false

-- `manager.Options`; `namespaces` is the limit of the cache.
pub record Options : Type 0 where
  pub metrics_bind_address : Bytes
  pub health_probe_bind_address : Bytes
  pub leader_election : Bool
  pub leader_election_id : Bytes
  pub leader_election_namespace : Bytes
  pub lease_duration : ℤ
  pub renew_deadline : ℤ
  pub retry_period : ℤ
  pub graceful_shutdown_timeout : ℤ
  pub namespaces : Option (List Bytes)

pub data RunError : Type 0 where
  registering_types creating_manager : RunError
  building_table : BuilderError → RunError
  adding : Part → RunError
  setting_up_discovery : SetupError → RunError
  creating_gateway : GatewayError → RunError
  running_manager : Bytes → RunError

-- Whether the calls of the libraries succeed.
pub record Platform : Type 0 where
  pub registers_types : Bool
  pub creates_manager : Bool
  pub adds : Part → Bool
  -- The error of `mgr.Start`.
  pub manager_error : Option Bytes

abbrev pub manager_options : Settings → Options
manager_options cfg = record {
  metrics_bind_address = cfg.metrics_bind_address;
  health_probe_bind_address = codes "0";
  leader_election = cfg.leader.enabled;
  leader_election_id = cfg.leader.id;
  leader_election_namespace = cfg.leader.namespace;
  lease_duration = cfg.leader.lease_duration;
  renew_deadline = cfg.leader.renew_deadline;
  retry_period = cfg.leader.retry_period;
  graceful_shutdown_timeout = cfg.proxy.shutdown_grace_period;
  namespaces = cache_namespaces cfg.watch;
}

module _ {ℓ} {E : Type ℓ} {A : Type 0} where
  -- An error of a part, as `run` wraps it.
  abbrev pub as_run : (E → RunError) → Result E A → Result RunError A
  as_run wrap (ok a) = ok a
  as_run wrap (err e) = err (wrap e)

module _ (platform : Platform) (files : TlsFiles) (cfg : Settings) where
  abbrev pub add_part : Part → Result RunError (List Part)
  add_part part = if platform.adds part then ok (part ∷ []) else err (adding part)

  unfoldable pub add_builder : Result RunError (List Part)
  add_builder = do
    ready ← as_run building_table (
        setup_builder (record {
          has_store = true;
          cluster_domain = cfg.watch.cluster_domain;
          watch_secrets = cfg.watch.watch_secrets;
          debounce = pos 0;
        }))
    add_part (table_builder ready)

  unfoldable pub add_discovery : Result RunError (List Part)
  add_discovery = if not cfg.discovery.enabled then ok [] else do
    (selector, annotation) ←
        as_run setting_up_discovery (setup cfg.discovery.selector cfg.discovery.database_annotation)
    add_part (discovery_reconciler selector annotation)

  unfoldable pub add_reconcilers : Result RunError (List Part)
  add_reconcilers = if not (runs_manager cfg.role) then ok [] else do
    status ← add_part status_reconciler
    discovery ← add_discovery
    ok (status ++ discovery)

  unfoldable pub add_gateway : Result RunError (List Part)
  add_gateway = if not (runs_proxy cfg.role) then ok [] else do
    (config, slots) ← as_run creating_gateway (new_gateway files cfg.proxy)
    add_part (gateway config slots)

  -- `run` up to `mgr.Start`: the options of the manager and what is registered, in order.
  unfoldable pub prepare : Result RunError (Options × List Part)
  prepare = do
    fail_if (not platform.registers_types) registering_types
    fail_if (not platform.creates_manager) creating_manager
    builder ← add_builder
    reconcilers ← add_reconcilers
    gateways ← add_gateway
    probe_server ← add_part (probes cfg.health_bind_address)
    ok (manager_options cfg, builder ++ (reconcilers ++ (gateways ++ probe_server)))

  unfoldable pub run : Result RunError (Options × List Part)
  run = do
    prepared ← prepare
    elim platform.manager_error [ none ↦ ok prepared | some e ↦ err (running_manager e) ]
