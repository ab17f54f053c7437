-- ===== src/Config/Environment.antt =====
-- src/internal/config/env.go: the environment variables of the former deployment.
use pg_k8s_proxy.Common.{
  ℕ, ◌+◌, ◌^◌, Bytes, Option, none, some, List, [], ◌∷◌, ◌++◌, Bool, false, not, ◌&&◌, codes,
  is_empty, ltb, ◌==◌, if◌then◌else◌,
}
use pg_k8s_proxy.Registry.Client.{parse_digits}
use pg_k8s_proxy.Config.{Settings, Host}

pub data Warning : Type 0 where
  not_a_port : Bytes → Bytes → Warning
  deprecated : Bytes → Bytes → Warning
  poll_interval_ignored : Warning

-- A magnitude with its sign fits an int of 64 bits.
abbrev is_magnitude : ℕ → Bytes → Bool
is_magnitude bound digits =
    not (is_empty digits) && elim (parse_digits 0 digits) [ none ↦ false | some n ↦ ltb n bound ]

-- Whether `strconv.Atoi` takes it.
unfoldable pub is_int : Bytes → Bool
is_int [] = false
is_int (c ∷ cs) =
    if c == b'-'
    then is_magnitude (2 ^ 63 + 1) cs
    else if c == b'+'
    then is_magnitude (2 ^ 63) cs
    else is_magnitude (2 ^ 63) (c ∷ cs)

abbrev prepend : ℕ → List Bytes → List Bytes
prepend c [] = (c ∷ []) ∷ []
prepend c (part ∷ parts) = (c ∷ part) ∷ parts

-- `strings.Split(s, ",")`.
unfoldable pub split_commas : Bytes → List Bytes
split_commas [] = [] ∷ []
split_commas (c ∷ cs) =
    let rest = split_commas cs in if c == b',' then [] ∷ rest else prepend c rest

-- A variable that is set and not empty.
unfoldable pub given : Host → Bytes → Option Bytes
given host env = elim (host.lookup_env env) [
  | none ↦ none
  | some raw ↦ if is_empty raw then none else some raw
]

module _ (host : Host) (explicitly_set : Bytes → Bool) where
  -- `setPort`: the target, and the warnings.
  unfoldable pub set_port : Bytes → Bytes → Bytes → Bytes × List Warning
  set_port env flag target = if explicitly_set flag then (target, []) else elim (given host env) [
    | none ↦ (target, [])
    | some raw ↦
        if is_int raw
        then (codes ":" ++ raw, deprecated env flag ∷ [])
        else (target, not_a_port env raw ∷ [])
  ]

  -- The two `if` statements that take a variable as it is.
  unfoldable pub take_env {ℓ} : {A : Type ℓ} → Bytes → Bytes → (Bytes → A) → A → A × List Warning
  take_env env flag read target = elim (given host env) [
    | none ↦ (target, [])
    | some raw ↦
        if not (explicitly_set flag) then (read raw, deprecated env flag ∷ []) else (target, [])
  ]

  unfoldable pub poll_warning : List Warning
  poll_warning = elim (host.lookup_env (codes "POLL_INTERVAL")) [
    | none ↦ []
    | some raw ↦ poll_interval_ignored ∷ []
  ]

  unfoldable pub apply_environment : Settings → Settings × List Warning
  apply_environment c =
      let (bind, w1) =
        set_port (codes "POSTGRES_PORT") (codes "proxy-bind-address") c.proxy.bind_address in
      let (health, w2) =
        set_port (codes "HEALTH_PORT") (codes "health-bind-address") c.health_bind_address in
      let (selector, w3) =
        take_env (codes "LABEL_SELECTOR") (codes "service-discovery-selector") (λ raw. raw)
          c.discovery.label_selector in
      let (namespaces, w4) =
        take_env (codes "KUBERNETES_NAMESPACE") (codes "watch-namespaces") split_commas
          c.watch.namespaces in
      (
        record c {
          proxy = record (c.proxy) { bind_address = bind };
          health_bind_address = health;
          discovery = record (c.discovery) { label_selector = selector };
          watch = record (c.watch) { namespaces = namespaces };
        },
        w1 ++ (w2 ++ (w3 ++ (w4 ++ poll_warning))),
      )
