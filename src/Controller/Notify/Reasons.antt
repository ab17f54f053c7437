-- ===== src/Controller/Notify/Reasons.antt =====
-- The reason of a failure, as the text of its error tells it.
use pg_k8s_proxy.Common.{
  ℕ, Bytes, ◌==◌, if◌then◌else◌, ◌≡◌, ◌≢◌, refl, Option, none, some, [], ◌∷◌, Bool, false, ◌||◌,
}
use pg_k8s_proxy.Api.{name_keys}
use pg_k8s_proxy.Registry.Resolve.{
  ResolveError, backend_not_found, reading_service, no_port, port_number_not_found,
  port_name_not_found, unrecognised_port, service_unset, address_unset, unsupported_type, ca_bundle,
  is_not_found, is_backend_not_found, is_port_not_found, is_ca_bundle,
}
use pg_k8s_proxy.Registry.Errors.{error_text}
use pg_k8s_proxy.Controller.Status.{
  Library, reason_backend_not_found, reason_port_not_found, reason_ca_bundle_failed,
  reason_invalid_backend, resolve_failure_reason,
}

-- The first byte of a text.
abbrev pub head_of : Bytes → ℕ
head_of [] = 0
head_of (c ∷ cs) = c

-- The reason, from the first byte of the text and from whether a "not found" of the API is behind
-- it.
abbrev pub reason_from : ℕ → Bool → Bytes
reason_from c missing =
    if c == b'b' || missing
    then reason_backend_not_found
    else if c == b'p'
    then reason_port_not_found
    else if c == b'C'
    then reason_ca_bundle_failed
    else reason_invalid_backend

module _ (lib : Library) where
  abbrev pub text_of : ResolveError → Bytes
  text_of e = error_text lib.quote lib.api_text e

  pub reason-text :
      (e : ResolveError)
      → resolve_failure_reason e ≡ reason_from (head_of (text_of e)) (is_not_found e)
  unfolding resolve_failure_reason error_text is_backend_not_found is_port_not_found is_ca_bundle
      is_not_found
  reason-text (backend_not_found namespace name) = refl
  reason-text (reading_service namespace name e) = refl
  reason-text (no_port namespace name n) = refl
  reason-text (port_number_not_found namespace name n) = refl
  reason-text (port_name_not_found namespace name port) = refl
  reason-text (unrecognised_port namespace name) = refl
  reason-text service_unset = refl
  reason-text address_unset = refl
  reason-text (unsupported_type type) = refl
  reason-text (ca_bundle e) = refl

  pub text_not_empty : (e : ResolveError) → text_of e ≢ []
  unfolding error_text
  text_not_empty (backend_not_found namespace name) h = absurd (cc h)
  text_not_empty (reading_service namespace name e) h = absurd (cc h)
  text_not_empty (no_port namespace name n) h = absurd (cc h)
  text_not_empty (port_number_not_found namespace name n) h = absurd (cc h)
  text_not_empty (port_name_not_found namespace name port) h = absurd (cc h)
  text_not_empty (unrecognised_port namespace name) h = absurd (cc h)
  text_not_empty service_unset h = absurd (cc h)
  text_not_empty address_unset h = absurd (cc h)
  text_not_empty (unsupported_type type) h = absurd (cc h)
  text_not_empty (ca_bundle e) h = absurd (cc h)

-- Whether a "not found" of the API is behind the error, where there is one.
abbrev pub is_missing : Option ResolveError → Bool
is_missing none = false
is_missing (some e) = is_not_found e
