-- ===== src/Gateway.antt =====
-- src/cmd/pg-k8s-proxy/run.go: how the settings become a gateway, `buildServerTLS` and
-- `newGateway`, the scope of the caches, and the readiness check. Files and the TLS library are
-- given.
pub mod Starting
pub mod Readiness
use pg_k8s_proxy.Common.{
  length, ℕ, ℤ, Bytes, Option, none, some, List, [], Bool, true, false, not, ◌&&◌, Result, ok, err,
  wrap_err, ◌>>=◌, ◌>>◌, is_empty, text_eq, codes, Assoc, if◌then◌else◌, map,
}
use pg_k8s_proxy.Config.{
  Settings, ProxyConfig, WatchConfig, Selector, mode_disable, mode_require, runs_proxy,
  runs_manager, cluster_scoped,
}
use pg_k8s_proxy.Registry.Resolve.{Route}
use pg_k8s_proxy.Health.{Check, Probes, new_probes}
use pg_k8s_proxy.Proxy.Server.{Config, TlsSettings, NewError, Server, new}

-- What `buildServerTLS` calls.
pub record TlsFiles : Type 0 where
  -- `LoadX509KeyPair`, which may fail.
  pub load_key_pair : Bytes → Bytes → Option Bytes
  pub read_file : Bytes → Option Bytes
  -- Whether `AppendCertsFromPEM` finds a certificate.
  pub has_certificates : Bytes → Bool

-- The `tls.Config` that is built, and `Required`; with `client_ca` a certificate of the client is
-- required and verified.
pub record GatewayTls : Type 0 where
  pub certificate : Bytes
  pub client_ca : Option Bytes
  pub required : Bool

pub data GatewayError : Type 0 where
  loading_key_pair reading_client_ca : GatewayError
  no_client_certificates : Bytes → GatewayError
  creating : NewError → GatewayError

unfoldable pub client_ca_pool : TlsFiles → Bytes → Result GatewayError (Option Bytes)
client_ca_pool files path = if is_empty path then ok none else elim (files.read_file path) [
  | none ↦ err reading_client_ca
  | some pem ↦
      if files.has_certificates pem then ok (some pem) else err (no_client_certificates path)
]

unfoldable pub build_server_tls : TlsFiles → ProxyConfig → Result GatewayError (Option GatewayTls)
build_server_tls files cfg =
    if text_eq cfg.tls_mode mode_disable
    then ok none
    else elim (files.load_key_pair cfg.tls_cert_file cfg.tls_key_file) [
      | none ↦ err loading_key_pair
      | some certificate ↦ do
        client_ca ← client_ca_pool files cfg.tls_client_ca_file
        ok (
            some (record {
              certificate = certificate;
              client_ca = client_ca;
              required = text_eq cfg.tls_mode mode_require;
            }))
    ]

-- What the server sees of it.
abbrev pub tls_settings : Option GatewayTls → Option TlsSettings
tls_settings none = none
tls_settings (some t) = some (record { has_config = true; required = t.required })

abbrev pub server_config : ProxyConfig → Option GatewayTls → Config
server_config cfg tls = record {
  listen_address = cfg.bind_address;
  has_routes = true;
  tls = tls_settings tls;
  max_connections = cfg.max_connections;
  startup_timeout = cfg.startup_timeout;
  dial_timeout = cfg.dial_timeout;
  shutdown_grace_period = cfg.shutdown_grace_period;
  keep_alive_period = cfg.keep_alive_period;
}

abbrev pub creating_failed {ℓ} : {A : Type ℓ} → Result NewError A → Result GatewayError A
creating_failed (ok a) = ok a
creating_failed (err e) = err (creating e)

unfoldable pub new_gateway : TlsFiles → ProxyConfig → Result GatewayError (Config × Option ℕ)
new_gateway files cfg = do
  tls ← build_server_tls files cfg
  creating_failed (new (server_config cfg tls))

-- `cacheOptions`: the namespaces that the informers are limited to, if they are.
unfoldable pub cache_namespaces : WatchConfig → Option (List Bytes)
cache_namespaces w = if not (cluster_scoped w) then some w.namespaces else none

-- `readinessCheck`, whether it reports an error; no gateway runs in a manager.
unfoldable pub not_ready : Option Server → Bool
not_ready none = false
not_ready (some gateway) = not gateway.listening

-- What the checks of the probes read: the gateway, if the role has one, and the table in the store.
pub record Process : Type 0 where
  pub gateway : Option Server
  pub routes : Assoc Bytes Route

abbrev pub readiness_check : Check Process
readiness_check p =
    if not_ready p.gateway
    then some (codes "the gateway is not accepting connections yet")
    else none

-- What `run` gives to `health.New`.
abbrev pub process_probes : Probes Process
process_probes = new_probes (record {
  live = some (λ _. none);
  ready = some readiness_check;
  route_count = some (λ p. length p.routes);
})
