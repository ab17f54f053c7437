-- ===== src/Wiring/Command.antt =====
-- src/cmd/pg-k8s-proxy/main.go: the root command, from the flags of its command line to `run`.
pub mod Sources
use pg_k8s_proxy.Common.{Bytes, List, [], Result, ok, err, ◌>>=◌}
use pg_k8s_proxy.Config.{Settings, Host, ConfigError, default, validate}
use pg_k8s_proxy.Config.Flags.{FlagTypes, FlagError, is_changed, bind_flags}
use pg_k8s_proxy.Config.Environment.{Warning, apply_environment}
use pg_k8s_proxy.Gateway.{TlsFiles}
use pg_k8s_proxy.Wiring.{Part, Options, Platform, RunError, run}

pub data CommandError : Type 0 where
  parsing : FlagError → CommandError
  validating : ConfigError → CommandError
  running : RunError → CommandError

abbrev pub as_command {ℓ κ} :
    {E : Type ℓ} {A : Type κ} → (E → CommandError) → Result E A → Result CommandError A
as_command wrap (ok a) = ok a
as_command wrap (err e) = err (wrap e)

-- The settings before `Validate`: the defaults, the flags, the environment; and its warnings.
unfoldable pub configure :
    FlagTypes → Host → List (Bytes × Bytes) → Result FlagError (Settings × List Warning)
configure t host args = do
  (c, changed) ← t.parse (bind_flags t) args default
  ok (apply_environment host (is_changed changed) c)

-- `RunE`, with what `run` hands over to the manager.
unfoldable pub command :
    FlagTypes
    → Host
    → Platform
    → TlsFiles
    → List (Bytes × Bytes)
    → Result CommandError (Options × List Part)
command t host platform files args = do
  (c, warnings) ← as_command parsing (configure t host args)
  c' ← as_command validating (validate host c)
  as_command running (run platform files c')
