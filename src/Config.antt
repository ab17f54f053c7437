-- ===== src/Config.antt =====
-- src/internal/config/config.go: the settings, their defaults, and what `Validate` makes of them.
-- Times are in nanoseconds. An error leaves the settings behind half resolved; the only caller, in
-- src/cmd/pg-k8s-proxy/main.go, gives them up then.
pub mod Trim
pub mod Rules
pub mod Checked
pub mod Environment
pub mod Flags
pub mod Precedence
use pg_k8s_proxy.Common.{
  ℕ, ℤ, pos, ◌*◌, Bytes, Option, none, some, List, [], ◌∷◌, Bool, true, false, not, ◌&&◌, ◌||◌,
  Result, ok, err, fail_if, ◌>>=◌, ◌>>◌, Assoc, codes, is_empty, text_eq, ltb_ℤ, if◌then◌else◌,
}
use pg_k8s_proxy.Config.Trim.{trim_space}

abbrev pub role_all : Bytes
role_all = codes "all"

abbrev pub role_manager : Bytes
role_manager = codes "manager"

abbrev pub role_proxy : Bytes
role_proxy = codes "proxy"

-- `RunsProxy` and `RunsManager`.
abbrev pub runs_proxy : Bytes → Bool
runs_proxy role = text_eq role role_all || text_eq role role_proxy

abbrev pub runs_manager : Bytes → Bool
runs_manager role = text_eq role role_all || text_eq role role_manager

abbrev pub mode_disable : Bytes
mode_disable = codes "disable"

abbrev pub mode_allow : Bytes
mode_allow = codes "allow"

abbrev pub mode_require : Bytes
mode_require = codes "require"

-- `labels.Selector`, by what is asked of it.
pub record Selector : Type 0 where
  pub empty : Bool
  pub matches : Assoc Bytes Bytes → Bool

pub record ProxyConfig : Type 0 where
  pub bind_address : Bytes
  pub max_connections : ℤ
  pub startup_timeout : ℤ
  pub dial_timeout : ℤ
  pub shutdown_grace_period : ℤ
  pub keep_alive_period : ℤ
  pub tls_mode : Bytes
  pub tls_cert_file : Bytes
  pub tls_key_file : Bytes
  pub tls_client_ca_file : Bytes

pub record WatchConfig : Type 0 where
  pub namespaces : List Bytes
  pub cluster_domain : Bytes
  pub watch_secrets : Bool

pub record DiscoveryConfig : Type 0 where
  pub enabled : Bool
  pub label_selector : Bytes
  pub database_annotation : Bytes
  pub selector : Option Selector

pub record LeaderConfig : Type 0 where
  pub enabled : Bool
  pub id : Bytes
  pub namespace : Bytes
  pub lease_duration : ℤ
  pub renew_deadline : ℤ
  pub retry_period : ℤ

pub record Settings : Type 0 where
  pub role : Bytes
  pub proxy : ProxyConfig
  pub watch : WatchConfig
  pub discovery : DiscoveryConfig
  pub leader : LeaderConfig
  pub health_bind_address : Bytes
  pub metrics_bind_address : Bytes
  pub log_level : Bytes
  pub log_format : Bytes

abbrev pub cluster_scoped : WatchConfig → Bool
cluster_scoped w = is_empty w.namespaces

abbrev time_of : ℕ → ℤ
time_of n = pos (n * 1000000000)

-- `Default`.
abbrev pub default : Settings
default = record {
  role = role_all;
  proxy = record {
    bind_address = codes ":5432";
    max_connections = pos 0;
    startup_timeout = time_of 30;
    dial_timeout = time_of 5;
    shutdown_grace_period = time_of 30;
    keep_alive_period = time_of 30;
    tls_mode = mode_disable;
    tls_cert_file = [];
    tls_key_file = [];
    tls_client_ca_file = [];
  };
  watch = record { namespaces = []; cluster_domain = codes "cluster.local"; watch_secrets = false };
  discovery = record {
    enabled = true;
    label_selector = codes "app.kubernetes.io/name=postgresql";
    database_annotation = codes "pgproxy.io/database-name";
    selector = none;
  };
  leader = record {
    enabled = true;
    id = codes "pg-k8s-proxy.pgproxy.io";
    namespace = [];
    lease_duration = time_of 15;
    renew_deadline = time_of 10;
    retry_period = time_of 2;
  };
  health_bind_address = codes ":8080";
  metrics_bind_address = codes ":9090";
  log_level = codes "info";
  log_format = codes "json";
}

-- What is read of the process's surroundings, and `labels.Parse`.
pub record Host : Type 0 where
  pub read_file : Bytes → Option Bytes
  pub lookup_env : Bytes → Option Bytes
  pub parse_selector : Bytes → Option Selector

pub data ConfigError : Type 0 where
  bad_role bad_tls_mode needs_tls_files bad_selector bad_log_level bad_log_format :
      Bytes → ConfigError
  negative_connections : ℤ → ConfigError
  no_cluster_domain empty_selector : ConfigError

-- `os.Getenv`.
abbrev pub getenv : Host → Bytes → Bytes
getenv host name = elim (host.lookup_env name) [ none ↦ [] | some v ↦ v ]

abbrev pub token_namespace : Bytes
token_namespace = codes "/var/run/secrets/kubernetes.io/serviceaccount/namespace"

unfoldable pub current_namespace : Host → Bytes
current_namespace host = elim (host.read_file token_namespace) [
  | none ↦ getenv host (codes "POD_NAMESPACE")
  | some data_of ↦
      let ns = trim_space data_of in if is_empty ns then getenv host (codes "POD_NAMESPACE") else ns
]

-- The cases of the `switch` statements.
abbrev pub is_role : Bytes → Bool
is_role role = text_eq role role_all || (text_eq role role_manager || text_eq role role_proxy)

abbrev pub is_log_level : Bytes → Bool
is_log_level l =
    text_eq l (codes "debug")
    || (text_eq l (codes "info") || (text_eq l (codes "warn") || text_eq l (codes "error")))

abbrev pub is_log_format : Bytes → Bool
is_log_format f = text_eq f (codes "json") || text_eq f (codes "text")

unfoldable pub check_tls_mode : ProxyConfig → Result ConfigError (Unit {0})
check_tls_mode p =
    if text_eq p.tls_mode mode_disable
    then ok tt
    else if text_eq p.tls_mode mode_allow || text_eq p.tls_mode mode_require
    then fail_if (is_empty p.tls_cert_file || is_empty p.tls_key_file) (needs_tls_files p.tls_mode)
    else err (bad_tls_mode p.tls_mode)

unfoldable pub resolve_discovery :
    Host → Bytes → DiscoveryConfig → Result ConfigError DiscoveryConfig
resolve_discovery host role d =
    if not d.enabled
    then ok d
    else if not (runs_manager role)
    then ok (record d { enabled = false })
    else elim (host.parse_selector d.label_selector) [
      | none ↦ err (bad_selector d.label_selector)
      | some s ↦ if s.empty then err empty_selector else ok (record d { selector = some s })
    ]

unfoldable pub resolve_leader : Host → Bytes → LeaderConfig → LeaderConfig
resolve_leader host role l = record l {
  enabled = l.enabled && runs_manager role;
  namespace = if is_empty l.namespace then current_namespace host else l.namespace;
}

unfoldable pub trim_namespaces : List Bytes → List Bytes
trim_namespaces [] = []
trim_namespaces (ns ∷ rest) =
    let kept = trim_namespaces rest in
    if is_empty (trim_space ns) then kept else trim_space ns ∷ kept

-- The settings with their derived fields.
abbrev pub with_derived : Host → Settings → DiscoveryConfig → Settings
with_derived host c discovery = record c {
  discovery = discovery;
  leader = resolve_leader host c.role c.leader;
  watch = record (c.watch) { namespaces = trim_namespaces c.watch.namespaces };
}

unfoldable pub validate : Host → Settings → Result ConfigError Settings
validate host c = do
  fail_if (not (is_role c.role)) (bad_role c.role)
  check_tls_mode c.proxy
  fail_if (ltb_ℤ c.proxy.max_connections (pos 0)) (negative_connections c.proxy.max_connections)
  fail_if (is_empty c.watch.cluster_domain) no_cluster_domain
  discovery ← resolve_discovery host c.role c.discovery
  fail_if (not (is_log_level c.log_level)) (bad_log_level c.log_level)
  fail_if (not (is_log_format c.log_format)) (bad_log_format c.log_format)
  ok (with_derived host c discovery)
