-- ===== src/Registry/Errors.antt =====
-- src/internal/registry: the texts of the errors that registry.go and resolver.go make with
-- fmt.Errorf. The verb `%q` and the texts of the API's errors are given.
use pg_k8s_proxy.Common.{Bytes, [], ◌∷◌, ◌++◌, codes}
use pg_k8s_proxy.Registry.Address.{itoa}
use pg_k8s_proxy.Registry.Resolve.{
  ApiError, CaError, secrets_disabled, reading_secret, missing_key, no_certificates, ResolveError,
  backend_not_found, reading_service, no_port, port_number_not_found, port_name_not_found,
  unrecognised_port, service_unset, address_unset, unsupported_type, ca_bundle,
}

-- The texts of `ErrBackendNotFound` and the others, with what stands behind them.
abbrev backend_missing : Bytes → Bytes
backend_missing rest = codes "backend not found: " ++ rest

abbrev port_missing : Bytes → Bytes
port_missing rest = codes "port not found: " ++ rest

abbrev backend_invalid : Bytes → Bytes
backend_invalid rest = codes "invalid backend: " ++ rest

-- `service %s/%s`, and what follows.
abbrev service_text : Bytes → Bytes → Bytes → Bytes
service_text namespace name rest = codes "service " ++ (namespace ++ (b'/' ∷ (name ++ rest)))

abbrev secret_text : Bytes → Bytes → Bytes → Bytes
secret_text namespace name rest = codes "secret " ++ (namespace ++ (b'/' ∷ (name ++ rest)))

module _ (quote : Bytes → Bytes) (api_text : ApiError → Bytes) where
  unfoldable pub ca_error_text : CaError → Bytes
  ca_error_text (secrets_disabled namespace name) =
      codes "route refers to the CA bundle Secret "
      ++ (namespace
          ++ (b'/'
              ∷ (name
                  ++ codes
                      ", but reading Secrets is disabled; install the chart with rbac.readCABundleSecrets=true")))
  ca_error_text (reading_secret namespace name e) =
      secret_text namespace name (
        codes " (it must carry the label pgproxy.io/ca-bundle=true to be readable): " ++ api_text e)
  ca_error_text (missing_key namespace name key) =
      secret_text namespace name (codes " has no key " ++ quote key)
  ca_error_text (no_certificates namespace name key) =
      secret_text namespace name
        (codes " key " ++ (quote key ++ codes " holds no PEM certificates"))

  -- `Error` of what `resolve` fails with.
  unfoldable pub error_text : ResolveError → Bytes
  error_text (backend_not_found namespace name) = backend_missing (service_text namespace name [])
  error_text (reading_service namespace name e) =
      codes "reading " ++ service_text namespace name (codes ": " ++ api_text e)
  error_text (no_port namespace name n) =
      service_text namespace name (codes " exposes no port " ++ itoa n)
  error_text (port_number_not_found namespace name n) =
      port_missing (service_text namespace name (codes " exposes no port " ++ itoa n))
  error_text (port_name_not_found namespace name port) =
      port_missing (service_text namespace name (codes " has no port named " ++ quote port))
  error_text (unrecognised_port namespace name) =
      backend_invalid (service_text namespace name (codes " has an unrecognised port reference"))
  error_text service_unset =
      backend_invalid (codes "backend.type is Service but backend.service is unset")
  error_text address_unset =
      backend_invalid (codes "backend.type is Address but backend.address is unset")
  error_text (unsupported_type type) =
      backend_invalid (codes "unsupported backend type " ++ quote type)
  error_text (ca_bundle e) = codes "CA bundle unavailable: " ++ ca_error_text e
