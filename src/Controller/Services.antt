-- ===== src/Controller/Services.antt =====
-- src/internal/controller/servicediscovery_controller.go: the labels and annotations, and what
-- `databaseName`, `priority` and `port` read of a Service.
use pg_k8s_proxy.Common.{
  ℕ, zero, suc, ℤ, pos, negsuc, ◌^◌, Bytes, Option, none, some, List, [], ◌∷◌, Bool, true, false,
  ◌||◌, ◌==◌, ltb, Assoc, lookup, bytes_keys, codes, is_empty, text_eq, eq_ℤ, if◌then◌else◌,
}
use pg_k8s_proxy.Api.{IntOrString, int, NamespacedName, name_keys}
use pg_k8s_proxy.Registry.Client.{ServicePort, parse_digits}

abbrev pub managed_by_label : Bytes
managed_by_label = codes "pgproxy.io/managed-by"

abbrev pub managed_by_service_discovery : Bytes
managed_by_service_discovery = codes "service-discovery"

abbrev pub source_service_label : Bytes
source_service_label = codes "pgproxy.io/source-service"

abbrev pub port_annotation : Bytes
port_annotation = codes "pgproxy.io/port"

abbrev pub priority_annotation : Bytes
priority_annotation = codes "pgproxy.io/priority"

abbrev pub ignore_annotation : Bytes
ignore_annotation = codes "pgproxy.io/ignore"

-- `corev1.Service`, the fields that are read.
pub record Service : Type 0 where
  pub key : NamespacedName
  pub uid : Bytes
  pub labels : Assoc Bytes Bytes
  pub annotations : Assoc Bytes Bytes
  pub ports : List ServicePort
  pub deleting : Bool

-- `m[k]` of a map of strings, with the zero value for a key that is missing.
abbrev pub value_of : Assoc Bytes Bytes → Bytes → Bytes
value_of m k = elim (lookup k m) [ none ↦ [] | some v ↦ v ]

-- A magnitude with its sign, if it is an int32.
abbrev pub int32_of : Bool → ℕ → Option ℤ
int32_of true zero = some (pos 0)
int32_of true (suc n) = if ltb n (2 ^ 31) then some (negsuc n) else none
int32_of false n = if ltb n (2 ^ 31) then some (pos n) else none

abbrev pub parse_magnitude : Bool → Bytes → Option ℤ
parse_magnitude negative digits =
    if is_empty digits
    then none
    else elim (parse_digits 0 digits) [ none ↦ none | some n ↦ int32_of negative n ]

-- `strconv.ParseInt(s, 10, 32)`.
unfoldable pub parse_int32 : Bytes → Option ℤ
parse_int32 [] = none
parse_int32 (c ∷ cs) =
    if c == b'-'
    then parse_magnitude true cs
    else if c == b'+'
    then parse_magnitude false cs
    else parse_magnitude false (c ∷ cs)

-- -100.
abbrev pub discovered_route_priority : ℤ
discovered_route_priority = negsuc 99

unfoldable pub database_name : Bytes → Service → Bytes
database_name annotation svc =
    let name = value_of svc.annotations annotation in if is_empty name then svc.key.name else name

unfoldable pub priority : Service → ℤ
priority svc = elim (lookup priority_annotation svc.annotations) [
  | none ↦ discovered_route_priority
  | some raw ↦ elim (parse_int32 raw) [ none ↦ discovered_route_priority | some n ↦ n ]
]

abbrev pub is_postgres_name : Bytes → Bool
is_postgres_name name = text_eq name (codes "postgresql") || text_eq name (codes "postgres")

-- The two loops of `port`, and its last resort.
unfoldable pub postgres_port : List ServicePort → Option ℤ
postgres_port [] = none
postgres_port (p ∷ ps) = if is_postgres_name p.name then some p.port else postgres_port ps

unfoldable pub has_5432 : List ServicePort → Bool
has_5432 [] = false
has_5432 (p ∷ ps) = if eq_ℤ p.port (pos 5432) then true else has_5432 ps

abbrev pub sole_port : List ServicePort → ℤ
sole_port (p ∷ []) = p.port
sole_port _ = pos 5432

unfoldable pub chosen_port : List ServicePort → ℤ
chosen_port ports = elim (postgres_port ports) [
  | some n ↦ n
  | none ↦ if has_5432 ports then pos 5432 else sole_port ports
]

unfoldable pub port : (Bytes → IntOrString) → Service → IntOrString
port parse svc =
    let raw = value_of svc.annotations port_annotation in
    if is_empty raw then int (chosen_port svc.ports) else parse raw

-- `DefaultDatabaseAnnotation`.
abbrev pub database_annotation_default : Bytes
database_annotation_default = codes "pgproxy.io/database-name"
