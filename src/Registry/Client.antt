-- ===== src/Registry/Client.antt =====
-- src/internal/registry/resolver.go: `ClientResolver`, the resolver that reads the cluster. The
-- client's reads and the parser of PEM certificates are given.
pub mod Ports
use pg_k8s_proxy.Common.{
  ℕ, ◌+◌, ◌*◌, ◌-◌, ◌^◌, ℤ, pos, Bytes, Option, none, some, List, [], ◌∷◌, Bool, true, false, not,
  ◌&&◌, Result, ok, err, Assoc, lookup, bytes_keys, text_eq, eq_ℤ, is_empty, ltb, leb, ◌==◌,
  if◌then◌else◌,
}
use pg_k8s_proxy.Api.{IntOrString, int, string, untyped}
use pg_k8s_proxy.Registry.Resolve.{
  CertPool, ApiError, not_found, CaError, secrets_disabled, reading_secret, missing_key,
  no_certificates, ResolveError, backend_not_found, reading_service, no_port, port_number_not_found,
  port_name_not_found, unrecognised_port, Resolver,
}

pub record ServicePort : Type 0 where
  pub name : Bytes
  pub port : ℤ

-- `client.Reader`, by namespace and name: a Service's ports and a Secret's data.
pub record Reader : Type 0 where
  pub get_service : Bytes → Bytes → Result ApiError (List ServicePort)
  pub get_secret : Bytes → Bytes → Result ApiError (Assoc Bytes Bytes)
  -- Whether `AppendCertsFromPEM` finds a certificate.
  pub has_certificates : Bytes → Bool

pub record ClientResolver : Type 0 where
  pub client : Reader
  pub ca_bundles : Bool

-- The digits of a decimal number, after those that were read.
unfoldable pub parse_digits : ℕ → Bytes → Option ℕ
parse_digits n [] = some n
parse_digits n (c ∷ cs) =
    let rest = parse_digits (n * 10 + (c - 48)) cs in if leb 48 c && leb c 57 then rest else none

-- `strconv.ParseUint(s, 10, 16)`.
unfoldable pub parse_uint16 : Bytes → Option ℕ
parse_uint16 s =
    if is_empty s
    then none
    else elim (parse_digits 0 s) [ none ↦ none | some n ↦ if ltb n (2 ^ 16) then some n else none ]

unfoldable pub parse_port_number : Bytes → Option ℕ
parse_port_number s = elim (parse_uint16 s) [
  | none ↦ none
  | some n ↦ if n == 0 then none else some n
]

-- The loops over `svc.Spec.Ports`.
unfoldable pub has_port : ℤ → List ServicePort → Bool
has_port want [] = false
has_port want (p ∷ ps) = if eq_ℤ p.port want then true else has_port want ps

unfoldable pub port_named : Bytes → List ServicePort → Option ℤ
port_named name [] = none
port_named name (p ∷ ps) = if text_eq p.name name then some p.port else port_named name ps

-- The `switch` of `ResolveServicePort`, on the ports that were read.
unfoldable pub choose_port : Bytes → Bytes → List ServicePort → IntOrString → Result ResolveError ℤ
choose_port namespace name ports (int want) =
    if has_port want ports then ok want else err (no_port namespace name want)
choose_port namespace name ports (string s) = elim (parse_port_number s) [
  | some n ↦
      if has_port (pos n) ports
      then ok (pos n)
      else err (port_number_not_found namespace name (pos n))
  | none ↦ elim (port_named s ports) [
    | some port ↦ ok port
    | none ↦ err (port_name_not_found namespace name s)
  ]
]
choose_port namespace name ports untyped = err (unrecognised_port namespace name)

abbrev pub get_failed : Bytes → Bytes → ApiError → ResolveError
get_failed namespace name not_found = backend_not_found namespace name
get_failed namespace name e = reading_service namespace name e

unfoldable pub resolve_service_port :
    ClientResolver → Bytes → Bytes → IntOrString → Result ResolveError ℤ
resolve_service_port r namespace name port = elim (r.client.get_service namespace name) [
  | err e ↦ err (get_failed namespace name e)
  | ok ports ↦ choose_port namespace name ports port
]

unfoldable pub load_ca_bundle : ClientResolver → Bytes → Bytes → Bytes → Result CaError CertPool
load_ca_bundle r namespace secret_name key =
    if not r.ca_bundles
    then err (secrets_disabled namespace secret_name)
    else elim (r.client.get_secret namespace secret_name) [
      | err e ↦ err (reading_secret namespace secret_name e)
      | ok data_of ↦ elim (lookup key data_of) [
        | none ↦ err (missing_key namespace secret_name key)
        | some pem ↦
            if r.client.has_certificates pem
            then ok pem
            else err (no_certificates namespace secret_name key)
      ]
    ]

-- What `Build` is given.
abbrev pub client_resolver : ClientResolver → Resolver
client_resolver r = record {
  resolve_service_port = resolve_service_port r;
  load_ca_bundle = load_ca_bundle r;
}
