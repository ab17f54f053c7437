-- ===== src/Config/Flags.antt =====
-- src/internal/config/config.go: `BindFlags`, and how the flags of a command line change the
-- settings. pflag is given by how it reads a value of each type; a command line is what pflag makes
-- of it, the names with their texts, without those that cobra adds.
pub mod Wins
pub mod Fields
use pg_k8s_proxy.Common.{
  ◌≡◌, ℤ, Bytes, Option, none, some, List, [], ◌∷◌, Bool, true, false, ◌||◌, Result, ok, err, ◌>>=◌,
  Assoc, lookup, bytes_keys, codes, text_eq,
}
use pg_k8s_proxy.Config.{Settings}

-- `Set` of a flag: whether the flag was set before, and the text.
abbrev pub Setter : Type 0
Setter = Bool → Bytes → Settings → Option Settings

pub data FlagError : Type 0 where
  unknown_flag : Bytes → FlagError
  bad_value : Bytes → Bytes → FlagError

pub record FlagTypes : Type 0 where
  pub parse_int : Bytes → Option ℤ
  pub parse_duration : Bytes → Option ℤ
  pub parse_bool : Bytes → Option Bool
  -- `Set` of a slice: whether it was set before, the text, and the slice.
  pub set_slice : Bool → Bytes → List Bytes → Option (List Bytes)
  -- The parse of a command line: the settings, and the names that were set.
  pub parse :
      Assoc Bytes Setter
      → List (Bytes × Bytes)
      → Settings
      → Result FlagError (Settings × List Bytes)

-- `StringVar`, and the values of `roleValue` and `tlsModeValue`.
abbrev pub text_var : (Bytes → Settings → Settings) → Setter
text_var put seen text c = some (put text c)

abbrev pub parsed_var : {A : Type 0} → (Bytes → Option A) → (A → Settings → Settings) → Setter
parsed_var parse put seen text c = elim (parse text) [ none ↦ none | some v ↦ some (put v c) ]

abbrev pub slice_var :
    FlagTypes → (Settings → List Bytes) → (List Bytes → Settings → Settings) → Setter
slice_var t get put seen text c = elim (t.set_slice seen text (get c)) [
  | none ↦ none
  | some v ↦ some (put v c)
]

unfoldable pub bind_flags : FlagTypes → Assoc Bytes Setter
bind_flags t =
    (codes "role", text_var (λ v c. record c { role = v }))
    ∷ (
      codes "proxy-bind-address",
      text_var (λ v c. record c { proxy = record (c.proxy) { bind_address = v } }),
    )
    ∷ (
      codes "proxy-max-connections",
      parsed_var t.parse_int (λ v c. record c { proxy = record (c.proxy) { max_connections = v } }),
    )
    ∷ (
      codes "proxy-startup-timeout",
      parsed_var t.parse_duration
          (λ v c. record c { proxy = record (c.proxy) { startup_timeout = v } }),
    )
    ∷ (
      codes "proxy-dial-timeout",
      parsed_var t.parse_duration
          (λ v c. record c { proxy = record (c.proxy) { dial_timeout = v } }),
    )
    ∷ (
      codes "proxy-shutdown-grace-period",
      parsed_var t.parse_duration
          (λ v c. record c { proxy = record (c.proxy) { shutdown_grace_period = v } }),
    )
    ∷ (
      codes "proxy-keepalive-period",
      parsed_var t.parse_duration
          (λ v c. record c { proxy = record (c.proxy) { keep_alive_period = v } }),
    )
    ∷ (
      codes "proxy-tls-mode",
      text_var (λ v c. record c { proxy = record (c.proxy) { tls_mode = v } }),
    )
    ∷ (
      codes "proxy-tls-cert-file",
      text_var (λ v c. record c { proxy = record (c.proxy) { tls_cert_file = v } }),
    )
    ∷ (
      codes "proxy-tls-key-file",
      text_var (λ v c. record c { proxy = record (c.proxy) { tls_key_file = v } }),
    )
    ∷ (
      codes "proxy-tls-client-ca-file",
      text_var (λ v c. record c { proxy = record (c.proxy) { tls_client_ca_file = v } }),
    )
    ∷ (
      codes "watch-namespaces",
      slice_var t (λ c. c.watch.namespaces)
          (λ v c. record c { watch = record (c.watch) { namespaces = v } }),
    )
    ∷ (
      codes "cluster-domain",
      text_var (λ v c. record c { watch = record (c.watch) { cluster_domain = v } }),
    )
    ∷ (
      codes "watch-secrets",
      parsed_var t.parse_bool (λ v c. record c { watch = record (c.watch) { watch_secrets = v } }),
    )
    ∷ (
      codes "service-discovery",
      parsed_var t.parse_bool
          (λ v c. record c { discovery = record (c.discovery) { enabled = v } }),
    )
    ∷ (
      codes "service-discovery-selector",
      text_var (λ v c. record c { discovery = record (c.discovery) { label_selector = v } }),
    )
    ∷ (
      codes "service-discovery-database-annotation",
      text_var (λ v c. record c { discovery = record (c.discovery) { database_annotation = v } }),
    )
    ∷ (
      codes "leader-elect",
      parsed_var t.parse_bool (λ v c. record c { leader = record (c.leader) { enabled = v } }),
    )
    ∷ (
      codes "leader-elect-id",
      text_var (λ v c. record c { leader = record (c.leader) { id = v } }),
    )
    ∷ (
      codes "leader-elect-namespace",
      text_var (λ v c. record c { leader = record (c.leader) { namespace = v } }),
    )
    ∷ (
      codes "leader-elect-lease-duration",
      parsed_var t.parse_duration
          (λ v c. record c { leader = record (c.leader) { lease_duration = v } }),
    )
    ∷ (
      codes "leader-elect-renew-deadline",
      parsed_var t.parse_duration
          (λ v c. record c { leader = record (c.leader) { renew_deadline = v } }),
    )
    ∷ (
      codes "leader-elect-retry-period",
      parsed_var t.parse_duration
          (λ v c. record c { leader = record (c.leader) { retry_period = v } }),
    )
    ∷ (codes "health-bind-address", text_var (λ v c. record c { health_bind_address = v }))
    ∷ (codes "metrics-bind-address", text_var (λ v c. record c { metrics_bind_address = v }))
    ∷ (codes "log-level", text_var (λ v c. record c { log_level = v }))
    ∷ (codes "log-format", text_var (λ v c. record c { log_format = v }))
    ∷ []

-- `Changed` of a flag set, by the names that were set.
abbrev pub is_changed : List Bytes → Bytes → Bool
is_changed [] name = false
is_changed (n ∷ ns) name = text_eq n name || is_changed ns name

-- What pflag documents of it: the flags are set one after the other, each is remembered as changed,
-- and the first that is not known or does not take its text ends it.
module _ (flags : Assoc Bytes Setter) where
  unfoldable pub set_flag :
      Bytes → Bytes → Settings × List Bytes → Result FlagError (Settings × List Bytes)
  set_flag name text (c, changed) = elim (lookup name flags) [
    | none ↦ err (unknown_flag name)
    | some set ↦ elim (set (is_changed changed name) text c) [
      | none ↦ err (bad_value name text)
      | some c' ↦ ok (c', name ∷ changed)
    ]
  ]

  unfoldable pub parse_flags :
      List (Bytes × Bytes) → Settings × List Bytes → Result FlagError (Settings × List Bytes)
  parse_flags [] s = ok s
  parse_flags ((name, text) ∷ args) s = do s' ← set_flag name text s; parse_flags args s'

pub record IsDocumented (t : FlagTypes) : Type 0 where
  pub parses :
      (flags : Assoc Bytes Setter) (args : List (Bytes × Bytes)) (c : Settings)
      → t.parse flags args c ≡ parse_flags flags args (c, [])
