-- ===== src/Api.antt =====
-- src/api/v1alpha1/postgresroute_types.go: the PostgresRoute object. Of the Kubernetes metadata
-- only the fields that the program reads are kept. A time is a number of seconds.
use pg_k8s_proxy.Common.{
  ℕ, ℤ, Bytes, Option, Bool, codes, is_empty, if◌then◌else◌, Eq, text_eq, text_eq_iff, ◌≡◌, ◌↔◌,
  true, ◌&&◌, arith,
}

abbrev pub backend_type_service : Bytes
backend_type_service = codes "Service"

abbrev pub backend_type_address : Bytes
backend_type_address = codes "Address"

abbrev pub tls_disable : Bytes
tls_disable = codes "Disable"

abbrev pub tls_require : Bytes
tls_require = codes "Require"

abbrev pub tls_verify_ca : Bytes
tls_verify_ca = codes "VerifyCA"

abbrev pub tls_verify_full : Bytes
tls_verify_full = codes "VerifyFull"

-- `intstr.IntOrString`. The last constructor stands for a type tag that is neither.
pub data IntOrString : Type 0 where
  int : ℤ → IntOrString
  string : Bytes → IntOrString
  untyped : IntOrString

pub record ServiceBackend : Type 0 where
  pub name : Bytes
  pub namespace : Bytes
  pub port : IntOrString

pub record AddressBackend : Type 0 where
  pub host : Bytes
  pub port : ℤ

pub record Backend : Type 0 where
  pub type : Bytes
  pub service : Option ServiceBackend
  pub address : Option AddressBackend

pub record SecretKeyReference : Type 0 where
  pub name : Bytes
  pub key : Bytes

pub record BackendTls : Type 0 where
  pub mode : Bytes
  pub ca_secret_ref : Option SecretKeyReference
  pub server_name : Bytes

pub record PostgresRouteSpec : Type 0 where
  pub database : Bytes
  pub target_database : Bytes
  pub backend : Backend
  pub tls : Option BackendTls
  pub priority : ℤ

pub record NamespacedName : Type 0 where
  pub namespace : Bytes
  pub name : Bytes

pub record ObjectMeta : Type 0 where
  pub namespace : Bytes
  pub name : Bytes
  pub generation : ℕ
  pub creation_timestamp : ℕ

pub record PostgresRoute : Type 0 where
  pub meta : ObjectMeta
  pub spec : PostgresRouteSpec

abbrev pub key_of : PostgresRoute → NamespacedName
key_of r = record { namespace = r.meta.namespace; name = r.meta.name }

unfoldable pub effective_database : PostgresRoute → Bytes
effective_database r = if is_empty r.spec.database then r.meta.name else r.spec.database

unfoldable pub effective_target_database : PostgresRoute → Bytes
effective_target_database r =
    if is_empty r.spec.target_database then effective_database r else r.spec.target_database

unfoldable pub name_eq : NamespacedName → NamespacedName → Bool
name_eq a b = text_eq a.namespace b.namespace && text_eq a.name b.name

pub name_eq_iff : (a b : NamespacedName) → (name_eq a b ≡ true) ↔ (a ≡ b)
unfolding name_eq
name_eq_iff a b = ground (arith, text_eq_iff a.namespace b.namespace, text_eq_iff a.name b.name)

instance abbrev pub name_keys : Eq NamespacedName
name_keys = record { beq = name_eq; beq_iff = name_eq_iff }
