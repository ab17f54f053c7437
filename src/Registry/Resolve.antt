-- ===== src/Registry/Resolve.antt =====
-- Turning one route into an address and a TLS policy: `resolve`, `resolveTLS`, and what fails.
pub mod Fields
use pg_k8s_proxy.Common.{
  ℤ, pos, Bytes, Option, none, some, [], ◌∷◌, ◌++◌, Bool, true, false, not, ◌&&◌, ◌||◌, Result, ok,
  err, ◌>>=◌, codes, is_empty, text_eq, eq_ℤ, if◌then◌else◌,
}
use pg_k8s_proxy.Api.{
  IntOrString, ServiceBackend, AddressBackend, SecretKeyReference, NamespacedName, PostgresRoute,
  key_of, BackendTls, effective_database, effective_target_database, backend_type_service,
  backend_type_address, tls_disable, tls_verify_ca, tls_verify_full,
}
use pg_k8s_proxy.Registry.Address.{itoa, join_host_port}

-- A certificate pool is the PEM text that it was filled from.
abbrev pub CertPool : Type 0
CertPool = Bytes

-- What a read of the cluster can fail with.
pub data ApiError : Type 0 where
  not_found conflict : ApiError
  other : Bytes → ApiError

pub data CaError : Type 0 where
  secrets_disabled : Bytes → Bytes → CaError
  reading_secret : Bytes → Bytes → ApiError → CaError
  missing_key : Bytes → Bytes → Bytes → CaError
  no_certificates : Bytes → Bytes → Bytes → CaError

-- One constructor for each `return … fmt.Errorf(…)`, with the arguments of the format.
pub data ResolveError : Type 0 where
  backend_not_found : Bytes → Bytes → ResolveError
  reading_service : Bytes → Bytes → ApiError → ResolveError
  no_port : Bytes → Bytes → ℤ → ResolveError
  port_number_not_found : Bytes → Bytes → ℤ → ResolveError
  port_name_not_found : Bytes → Bytes → Bytes → ResolveError
  unrecognised_port : Bytes → Bytes → ResolveError
  service_unset address_unset : ResolveError
  unsupported_type : Bytes → ResolveError
  ca_bundle : CaError → ResolveError

-- `errors.Is` against the four errors of the package: what a constructor's format wraps by `%w`.
unfoldable pub is_backend_not_found : ResolveError → Bool
is_backend_not_found (backend_not_found _ _) = true
is_backend_not_found _ = false

unfoldable pub is_port_not_found : ResolveError → Bool
is_port_not_found (port_number_not_found _ _ _) = true
is_port_not_found (port_name_not_found _ _ _) = true
is_port_not_found _ = false

unfoldable pub is_ca_bundle : ResolveError → Bool
is_ca_bundle (ca_bundle _) = true
is_ca_bundle _ = false

-- `apierrors.IsNotFound`, which looks through wrapped errors.
is_api_not_found : ApiError → Bool
is_api_not_found not_found = true
is_api_not_found _ = false

unfoldable pub is_not_found : ResolveError → Bool
unfolding is_api_not_found
is_not_found (reading_service _ _ e) = is_api_not_found e
is_not_found (ca_bundle (reading_secret _ _ e)) = is_api_not_found e
is_not_found _ = false

-- The interface `Resolver`; registry/resolver.go has the one implementation.
pub record Resolver : Type 0 where
  pub resolve_service_port : Bytes → Bytes → IntOrString → Result ResolveError ℤ
  pub load_ca_bundle : Bytes → Bytes → Bytes → Result CaError CertPool

pub record TlsConfig : Type 0 where
  pub mode : Bytes
  pub root_cas : Option CertPool
  pub server_name : Bytes

-- `Enabled`.
unfoldable pub tls_enabled : TlsConfig → Bool
tls_enabled t = not (is_empty t.mode) && not (text_eq t.mode tls_disable)

pub record Route : Type 0 where
  pub source : NamespacedName
  pub database : Bytes
  pub target_database : Bytes
  pub host : Bytes
  pub port : ℤ
  pub tls : TlsConfig

unfoldable pub address : Route → Bytes
address r = join_host_port r.host (itoa r.port)

abbrev no_tls : TlsConfig
no_tls = record { mode = tls_disable; root_cas = none; server_name = [] }

-- The CA bundle of a policy that verifies certificates.
load_bundle :
    Resolver → Bytes → TlsConfig → Option SecretKeyReference → Result ResolveError TlsConfig
load_bundle resolver namespace out none = ok out
load_bundle resolver namespace out (some ref) =
    let key = if is_empty ref.key then codes "ca.crt" else ref.key in
    elim (resolver.load_ca_bundle namespace ref.name key) [
      | ok pool ↦ ok (record out { root_cas = some pool })
      | err e ↦ err (ca_bundle e)
    ]

resolve_tls : Resolver → Bytes → Option BackendTls → Result ResolveError TlsConfig
resolve_tls resolver namespace none = ok no_tls
resolve_tls resolver namespace (some spec) =
    let out : TlsConfig = record {
      mode = spec.mode;
      root_cas = none;
      server_name = spec.server_name;
    } in
    if is_empty spec.mode || text_eq spec.mode tls_disable
    then ok no_tls
    else if not (text_eq spec.mode tls_verify_ca || text_eq spec.mode tls_verify_full)
    then ok out
    else load_bundle resolver namespace out spec.ca_secret_ref

-- The host and the port of a route's backend: the `switch` of `resolve`.
resolve_service : Resolver → Bytes → Bytes → Option ServiceBackend → Result ResolveError (Bytes × ℤ)
resolve_service resolver domain route_namespace none = err service_unset
resolve_service resolver domain route_namespace (some backend) = do
  let namespace = if is_empty backend.namespace then route_namespace else backend.namespace
  port ← resolver.resolve_service_port namespace backend.name backend.port
  ok (backend.name ++ (b'.' ∷ (namespace ++ (codes ".svc." ++ domain))), port)

resolve_address : Option AddressBackend → Result ResolveError (Bytes × ℤ)
resolve_address none = err address_unset
resolve_address (some backend) =
    ok (backend.host, if eq_ℤ backend.port (pos 0) then pos 5432 else backend.port)

resolve_backend : Resolver → Bytes → PostgresRoute → Result ResolveError (Bytes × ℤ)
resolve_backend resolver domain route =
    let backend = route.spec.backend in
    if text_eq backend.type backend_type_service
    then resolve_service resolver domain route.meta.namespace backend.service
    else if text_eq backend.type backend_type_address
    then resolve_address backend.address
    else err (unsupported_type backend.type)

unfoldable pub resolve : Resolver → Bytes → PostgresRoute → Result ResolveError Route
unfolding resolve_backend resolve_service resolve_address resolve_tls load_bundle
resolve resolver domain route = do
  (host, port) ← resolve_backend resolver domain route
  tls ← resolve_tls resolver route.meta.namespace route.spec.tls
  ok (record {
    source = key_of route;
    database = effective_database route;
    target_database = effective_target_database route;
    host = host;
    port = port;
    tls = tls;
  })
