-- ===== src/Wiring/Command/Sources.antt =====
-- Where each setting of a process comes from.
use pg_k8s_proxy.Common.{
  ◌≡◌, sym, ap, ◌∙◌, inl, inr, Bytes, Option, some, List, [], ◌∷◌, ◌++◌, Bool, true, false, ok,
  bind-eq-ok, ok_inj, codes, subst, text_eq, Bool-cases,
}
use pg_k8s_proxy.Config.{Settings, Host, default}
use pg_k8s_proxy.Config.Flags.{FlagTypes, IsDocumented, bind_flags, is_changed, parse_flags}
use pg_k8s_proxy.Config.Flags.Wins.{mentions, reading, parse_flags_reads}
use pg_k8s_proxy.Config.Flags.Fields.{
  replace, bind_alone, health_alone, selector_alone, namespaces_alone,
}
use pg_k8s_proxy.Config.Environment.{
  Warning, deprecated, given, is_int, split_commas, apply_environment,
}
use pg_k8s_proxy.Config.Precedence.{
  IsUnusable, Warned, Honours, kept, taken, others, apply_environment-Honours,
}
use pg_k8s_proxy.Wiring.Command.{configure}

-- A setting that a flag, a variable of the environment, or the default decides, in this order.
pub data Sourced {A : Type 0} (host : Host) (args : List (Bytes × Bytes)) (ws : List Warning)
    (flag env : Bytes) (update : Bool → Bytes → A → Option A) (usable : Bytes → Bool)
    (read : Bytes → A) (initial after : A) : Type 0 where
  by_flag :
      mentions args flag ≡ true
      → reading flag update false initial args ≡ some after
      → Sourced host args ws flag env update usable read initial after
  by_environment :
      (raw : Bytes)
      → mentions args flag ≡ false
      → given host env ≡ some raw
      → usable raw ≡ true
      → after ≡ read raw
      → Warned (deprecated env flag) ws
      → Sourced host args ws flag env update usable read initial after
  by_default :
      mentions args flag ≡ false
      → IsUnusable host usable env
      → after ≡ initial
      → Sourced host args ws flag env update usable read initial after

-- Without the flag, its setting is the default.
unmentioned :
    {A : Type 0} (flag : Bytes) (update : Bool → Bytes → A → Option A) (seen : Bool) (a : A)
    (args : List (Bytes × Bytes)) {b : A}
    → mentions args flag ≡ false
    → reading flag update seen a args ≡ some b
    → b ≡ a
unfolding reading
unmentioned flag update seen a [] m h = cc h
unmentioned flag update seen a ((n, text) ∷ args) m h = elim (Bool-cases (text_eq n flag)) [
  | inl q ↦ absurd (cc (rw q at m))
  | inr q ↦ unmentioned flag update seen a args (rw q at m) (rw (q, reading) at h)
]

module _ {A : Type 0} (host : Host) (args : List (Bytes × Bytes)) (ws : List Warning)
    (changed : List Bytes) (flag env : Bytes) (update : Bool → Bytes → A → Option A)
    (usable : Bytes → Bool) (read : Bytes → A) (initial : A) where
  Honours-Sourced :
      {parsed after : A}
      → (reading flag update false initial args ≡ some parsed)
        × (is_changed changed flag ≡ mentions args flag)
      → Honours host (is_changed changed) ws env flag usable read parsed after
      → Sourced host args ws flag env update usable read initial after
  Honours-Sourced {parsed} (r, m) (kept reason e) = elim (Bool-cases (mentions args flag)) [
    | inl on ↦ by_flag on (r ∙ ap some (sym e))
    | inr on ↦ elim reason [
      | inl s ↦ absurd (cc (s, m, on))
      | inr u ↦ by_default on u (e ∙ unmentioned flag update false initial args on r)
    ]
  ]
  Honours-Sourced (r, m) (taken raw s g u e w) = by_environment raw (sym m ∙ s) g u e w

pub record Configured (t : FlagTypes) (host : Host) (args : List (Bytes × Bytes))
    (r : Settings × List Warning) : Type 0 where
  pub bind :
      Sourced host args r.1
        (codes "proxy-bind-address")
        (codes "POSTGRES_PORT")
        replace
        is_int
        (◌++◌ (codes ":"))
        default.proxy.bind_address
        r.0.proxy.bind_address
  pub health :
      Sourced host args r.1
        (codes "health-bind-address")
        (codes "HEALTH_PORT")
        replace
        is_int
        (◌++◌ (codes ":"))
        default.health_bind_address
        r.0.health_bind_address
  pub selector :
      Sourced host args r.1
        (codes "service-discovery-selector")
        (codes "LABEL_SELECTOR")
        replace
        (λ raw. true)
        (λ raw. raw)
        default.discovery.label_selector
        r.0.discovery.label_selector
  pub namespaces :
      Sourced host args r.1
        (codes "watch-namespaces")
        (codes "KUBERNETES_NAMESPACE")
        t.set_slice
        (λ raw. true)
        split_commas
        default.watch.namespaces
        r.0.watch.namespaces
  pub rest :
      (p : Settings × List Bytes) × (t.parse (bind_flags t) args default ≡ ok p)
      × (others r.0 ≡ others p.0)

-- Each of the four settings that both a flag and a variable of the environment can give is decided
-- by the flag if the command line has it, by its values one after the other; else by the variable
-- if it is set to something usable, and then a warning calls the variable deprecated; else it is
-- the default. Every other setting is as the flags leave it.
pub configure-Configured :
    (t : FlagTypes) (host : Host) (args : List (Bytes × Bytes)) {r : Settings × List Warning}
    → IsDocumented t
    → configure t host args ≡ ok r
    → Configured t host args r
unfolding configure
configure-Configured t host args {r} documented h =
    let (p, parsed, e) = bind-eq-ok (t.parse (bind_flags t) args default) _ h in
    let walked : parse_flags (bind_flags t) args (default, []) ≡ ok p =
      sym (documented.parses (bind_flags t) args default) ∙ parsed in
    let is : apply_environment host (is_changed p.1) p.0 ≡ r = ok_inj e in
    let honours = apply_environment-Honours host (is_changed p.1) p.0 in
    subst (Configured t host args) is (record {
      bind =
          Honours-Sourced host args _ p.1 _ _ _ _ _ _
            (parse_flags_reads t _ _ _ args default [] (bind_alone t) walked) honours.bind;
      health =
          Honours-Sourced host args _ p.1 _ _ _ _ _ _
            (parse_flags_reads t _ _ _ args default [] (health_alone t) walked) honours.health;
      selector =
          Honours-Sourced host args _ p.1 _ _ _ _ _ _
            (parse_flags_reads t _ _ _ args default [] (selector_alone t) walked) honours.selector;
      namespaces =
          Honours-Sourced host args _ p.1 _ _ _ _ _ _
            (parse_flags_reads t _ _ _ args default [] (namespaces_alone t) walked)
            honours.namespaces;
      rest = (p, parsed, honours.rest);
    })
