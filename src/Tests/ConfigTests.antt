-- ===== src/Tests/ConfigTests.antt =====
-- The defaults, an environment of the former deployment, and the gateway that they start.
use pg_k8s_proxy.Common.{
  ◌≡◌, refl, ◌↔◌, Bytes, List, lookup, bytes_keys, [], ◌∷◌, Option, some, none, Bool, true, false,
  ok, codes, text_eq, if◌then◌else◌, is_empty,
}
use pg_k8s_proxy.Config.{
  Settings, Host, default, validate, check_tls_mode, resolve_discovery, trim_namespaces,
  mode_require,
}
use pg_k8s_proxy.Config.Trim.{trim_space, trim_front, leading_space, trailing_space, backwards}
use pg_k8s_proxy.Config.Checked.{validate_accepts}
use pg_k8s_proxy.Config.Rules.{IsAccepted}
use pg_k8s_proxy.Config.Environment.{
  Warning, deprecated, apply_environment, set_port, take_env, given, is_int, split_commas,
  poll_warning,
}
use pg_k8s_proxy.Config.Flags.{FlagTypes, bind_flags, parse_flags, set_flag}
use pg_k8s_proxy.Wiring.Command.{configure}
use pg_k8s_proxy.Wiring.Command.Sources.{Configured, configure-Configured}
use pg_k8s_proxy.Registry.Client.{parse_digits}
use pg_k8s_proxy.Gateway.{TlsFiles}

abbrev variables : Bytes → Option Bytes
variables name =
    if text_eq name (codes "POSTGRES_PORT")
    then some (codes "6432")
    else if text_eq name (codes "KUBERNETES_NAMESPACE")
    then some (codes "apps, ,db ")
    else none

-- A selector that is empty where its text is.
abbrev pub test_host : Host
test_host = record {
  read_file = λ _. none;
  lookup_env = variables;
  parse_selector = λ s. some (record { empty = is_empty s; matches = λ _. true });
}

abbrev no_flag : Bytes → Bool
no_flag flag = false

abbrev with_environment : Settings
with_environment = (apply_environment test_host no_flag default).0

from_environment :
    (with_environment.proxy.bind_address ≡ codes ":6432")
    × (with_environment.watch.namespaces ≡ codes "apps" ∷ codes " " ∷ codes "db " ∷ [])
unfolding apply_environment set_port take_env given text_eq is_int parse_digits split_commas
from_environment = (refl, refl)

-- A negative number passes for a port.
negative_port :
    (set_port test_host no_flag (codes "POLL") (codes "flag") (codes ":5432") ≡ (codes ":5432", []))
    × (is_int (codes "-1") ≡ true)
unfolding set_port given text_eq is_int parse_digits
negative_port = (refl, refl)

trims :
    trim_namespaces (codes "apps" ∷ codes " " ∷ codes "db " ∷ []) ≡ codes "apps" ∷ codes "db" ∷ []
unfolding trim_namespaces trim_space trim_front leading_space trailing_space backwards
trims = refl

validate_accepts_example :
    ((c : Settings) × (validate test_host with_environment ≡ ok c))
    ↔ IsAccepted test_host with_environment
validate_accepts_example = validate_accepts test_host with_environment

abbrev pub with_tls : Settings
with_tls = record default {
  proxy = record (default.proxy) {
    tls_mode = mode_require;
    tls_cert_file = codes "tls.crt";
    tls_key_file = codes "tls.key";
  };
}

-- Every key pair loads, and there is no other file.
abbrev pub test_files : TlsFiles
test_files = record {
  load_key_pair = λ cert key. some cert;
  read_file = λ _. none;
  has_certificates = λ _. false;
}

pub with_tls_valid : (c : Settings) × (validate test_host with_tls ≡ ok c)
unfolding validate check_tls_mode resolve_discovery text_eq
with_tls_valid = (_, refl)

-- The texts "true" and "false" are read, and no others; a slice has one element.
abbrev test_types : FlagTypes
test_types = record {
  parse_int = λ _. none;
  parse_duration = λ _. none;
  parse_bool = λ text. some (text_eq text (codes "true"));
  set_slice = λ seen text old. some (text ∷ []);
  parse = λ flags args c. parse_flags flags args (c, []);
}

abbrev test_args : List (Bytes × Bytes)
test_args =
    (codes "proxy-bind-address", codes ":7000")
    ∷ (codes "watch-secrets", codes "true")
    ∷ (codes "proxy-bind-address", codes ":7001")
    ∷ []

-- The flag wins over POSTGRES_PORT, its last value over the first, and the namespaces are the
-- environment's.
abbrev configured_settings : Settings
configured_settings = record default {
  proxy = record (default.proxy) { bind_address = codes ":7001" };
  watch = record (default.watch) {
    namespaces = codes "apps" ∷ codes " " ∷ codes "db " ∷ [];
    watch_secrets = true;
  };
}

abbrev configured_warnings : List Warning
configured_warnings = deprecated (codes "KUBERNETES_NAMESPACE") (codes "watch-namespaces") ∷ []

is_configured :
    configure test_types test_host test_args ≡ ok (configured_settings, configured_warnings)
unfolding configure parse_flags set_flag bind_flags lookup apply_environment set_port take_env given
    poll_warning text_eq is_int parse_digits split_commas
is_configured = refl

configure-Configured_example :
    Configured test_types test_host test_args (configured_settings, configured_warnings)
configure-Configured_example =
    configure-Configured test_types test_host test_args (record { parses = λ flags args c. refl })
      is_configured
