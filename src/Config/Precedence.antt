-- ===== src/Config/Precedence.antt =====
-- What the environment may change of the settings.
use pg_k8s_proxy.Common.{
  ◌≡◌, refl, ◌⊎◌, inl, inr, Bytes, none, some, List, [], ◌∷◌, ◌++◌, Bool, true, false, codes,
  Bool-cases, Option-cases,
}
use pg_k8s_proxy.Config.{Settings, Host}
use pg_k8s_proxy.Config.Environment.{
  Warning, deprecated, given, is_int, set_port, take_env, split_commas, apply_environment,
}

-- The warning is in the list.
pub data Warned (w : Warning) : List Warning → Type 0 where
  here : {ws : List Warning} → Warned w (w ∷ ws)
  there : {v : Warning} {ws : List Warning} → Warned w ws → Warned w (v ∷ ws)

left_Warned : {w : Warning} (ws ks : List Warning) → Warned w ws → Warned w (ws ++ ks)
left_Warned [] ks h = elim h [ ]
left_Warned (w ∷ ws) ks here = here
left_Warned (v ∷ ws) ks (there h) = there (left_Warned ws ks h)

right_Warned : {w : Warning} (ws ks : List Warning) → Warned w ks → Warned w (ws ++ ks)
right_Warned [] ks h = h
right_Warned (v ∷ ws) ks h = there (right_Warned ws ks h)

-- No value of the variable that can be used.
abbrev pub IsUnusable : Host → (Bytes → Bool) → Bytes → Type 0
IsUnusable host usable env =
    (given host env ≡ none) ⊎ ((raw : Bytes) × (given host env ≡ some raw) × (usable raw ≡ false))

-- The setting is as before, for its flag is set or its variable has nothing to use; or its flag is
-- not set, the variable is, and a warning says so.
pub data Honours {ℓ} {A : Type ℓ} (host : Host) (explicitly_set : Bytes → Bool) (ws : List Warning)
    (env flag : Bytes) (usable : Bytes → Bool) (read : Bytes → A) (before after : A) : Type ℓ where
  kept :
      (explicitly_set flag ≡ true) ⊎ IsUnusable host usable env
      → after ≡ before
      → Honours host explicitly_set ws env flag usable read before after
  taken :
      (raw : Bytes)
      → explicitly_set flag ≡ false
      → given host env ≡ some raw
      → usable raw ≡ true
      → after ≡ read raw
      → Warned (deprecated env flag) ws
      → Honours host explicitly_set ws env flag usable read before after

-- The settings without the four that the environment may change.
abbrev pub others : Settings → Settings
others c = record c {
  proxy = record (c.proxy) { bind_address = [] };
  health_bind_address = [];
  discovery = record (c.discovery) { label_selector = [] };
  watch = record (c.watch) { namespaces = [] };
}

module _ (host : Host) (explicitly_set : Bytes → Bool) where
  weaken_Honours {ℓ} :
      {A : Type ℓ} {ws ks : List Warning} {env flag : Bytes} {usable : Bytes → Bool}
      {read : Bytes → A} {before after : A}
      → (Warned (deprecated env flag) ws → Warned (deprecated env flag) ks)
      → Honours host explicitly_set ws env flag usable read before after
      → Honours host explicitly_set ks env flag usable read before after
  weaken_Honours f (kept r e) = kept r e
  weaken_Honours f (taken raw s g u e w) = taken raw s g u e (f w)

  set_port-Honours :
      (env flag target : Bytes)
      → Honours host explicitly_set
          (set_port host explicitly_set env flag target).1
          env
          flag
          is_int
          (◌++◌ (codes ":"))
          target
          (set_port host explicitly_set env flag target).0
  unfolding set_port
  set_port-Honours env flag target = elim (Bool-cases (explicitly_set flag)) [
    | inl s ↦ kept (inl s) (simp (s, set_port) refl)
    | inr s ↦ elim (Option-cases (given host env)) [
      | inl g ↦ kept (inr (inl g)) (simp (s, g, set_port) refl)
      | inr (raw, g) ↦ elim (Bool-cases (is_int raw)) [
        | inr p ↦ kept (inr (inr (raw, g, p))) (simp (s, g, p, set_port) refl)
        | inl p ↦ taken raw s g p (simp (s, g, p, set_port) refl) (simp (s, g, p, set_port) here)
      ]
    ]
  ]

  take_env-Honours {ℓ} :
      {A : Type ℓ} (env flag : Bytes) (read : Bytes → A) (target : A)
      → Honours host explicitly_set
          (take_env host explicitly_set env flag read target).1
          env
          flag
          (λ raw. true)
          read
          target
          (take_env host explicitly_set env flag read target).0
  unfolding take_env
  take_env-Honours env flag read target = elim (Option-cases (given host env)) [
    | inl g ↦ kept (inr (inl g)) (simp (g, take_env) refl)
    | inr (raw, g) ↦ elim (Bool-cases (explicitly_set flag)) [
      | inl s ↦ kept (inl s) (simp (s, g, take_env) refl)
      | inr s ↦ taken raw s g refl (simp (s, g, take_env) refl) (simp (s, g, take_env) here)
    ]
  ]

  pub record HonoursEnvironment (before : Settings) (after : Settings × List Warning) : Type 0 where
    pub bind :
        Honours host explicitly_set after.1
          (codes "POSTGRES_PORT")
          (codes "proxy-bind-address")
          is_int
          (◌++◌ (codes ":"))
          before.proxy.bind_address
          after.0.proxy.bind_address
    pub health :
        Honours host explicitly_set after.1
          (codes "HEALTH_PORT")
          (codes "health-bind-address")
          is_int
          (◌++◌ (codes ":"))
          before.health_bind_address
          after.0.health_bind_address
    pub selector :
        Honours host explicitly_set after.1
          (codes "LABEL_SELECTOR")
          (codes "service-discovery-selector")
          (λ raw. true)
          (λ raw. raw)
          before.discovery.label_selector
          after.0.discovery.label_selector
    pub namespaces :
        Honours host explicitly_set after.1
          (codes "KUBERNETES_NAMESPACE")
          (codes "watch-namespaces")
          (λ raw. true)
          split_commas
          before.watch.namespaces
          after.0.watch.namespaces
    pub rest : others after.0 ≡ others before

  -- Flags win: each of the four settings that the environment reaches is as before, and then its
  -- flag was set or its variable is empty, missing, or not the number that a port has to be; or
  -- else its flag was not set, its variable is set and not empty, the setting is what the variable
  -- says, and a warning calls that variable deprecated. No other setting changes.
  pub apply_environment-Honours :
      (c : Settings) → HonoursEnvironment c (apply_environment host explicitly_set c)
  unfolding apply_environment
  apply_environment-Honours c =
      let p1 =
        set_port host explicitly_set (codes "POSTGRES_PORT") (codes "proxy-bind-address")
          c.proxy.bind_address in
      let p2 =
        set_port host explicitly_set (codes "HEALTH_PORT") (codes "health-bind-address")
          c.health_bind_address in
      let selector : Bytes × List Warning =
        take_env host explicitly_set (codes "LABEL_SELECTOR") (codes "service-discovery-selector")
          (λ raw. raw) c.discovery.label_selector in
      let p4 =
        take_env host explicitly_set (codes "KUBERNETES_NAMESPACE") (codes "watch-namespaces")
          split_commas c.watch.namespaces in
      record {
        bind = weaken_Honours (left_Warned p1.1 _) (set_port-Honours _ _ _);
        health =
            weaken_Honours (λ w. right_Warned p1.1 _ (left_Warned p2.1 _ w))
              (set_port-Honours _ _ _);
        selector =
            weaken_Honours
              (λ w. right_Warned p1.1 _ (right_Warned p2.1 _ (left_Warned selector.1 _ w)))
              (take_env-Honours _ _ _ _);
        namespaces =
            weaken_Honours
              (λ w.
                right_Warned p1.1 _
                  (right_Warned p2.1 _ (right_Warned selector.1 _ (left_Warned p4.1 _ w))))
              (take_env-Honours _ _ _ _);
        rest = refl;
      }
