-- ===== src/Config/Rules.antt =====
-- What `Validate` demands of TLS and of discovery, and what becomes of discovery.
use pg_k8s_proxy.Common.{
  ◌≡◌, refl, ap, subst, ◌∙◌, ◌⊎◌, inl, inr, pos, Bytes, some, Bool, true, false, not, ◌&&◌, ◌||◌,
  ok, fail_if, is_empty, text_eq, text_eq_iff, ltb_ℤ, Bool-cases, Option-cases,
}
use pg_k8s_proxy.Config.{
  Settings, ProxyConfig, DiscoveryConfig, Selector, Host, runs_manager, mode_disable, mode_allow,
  mode_require, is_role, is_log_level, is_log_format, check_tls_mode, resolve_discovery,
  needs_tls_files,
}

pub data TlsIsUsable (p : ProxyConfig) : Type 0 where
  off : p.tls_mode ≡ mode_disable → TlsIsUsable p
  on :
      (p.tls_mode ≡ mode_allow) ⊎ (p.tls_mode ≡ mode_require)
      → is_empty p.tls_cert_file ≡ false
      → is_empty p.tls_key_file ≡ false
      → TlsIsUsable p

-- Discovery that is wanted in a process that may write has a selector that says something.
abbrev pub SelectorIsUsable : Host → Bytes → DiscoveryConfig → Type 0
SelectorIsUsable host role d =
    (d.enabled && runs_manager role ≡ false)
    ⊎ ((s : Selector) × (host.parse_selector d.label_selector ≡ some s) × (s.empty ≡ false))

pub record IsAccepted (host : Host) (c : Settings) : Type 0 where
  pub role : is_role c.role ≡ true
  pub tls : TlsIsUsable c.proxy
  pub connections : ltb_ℤ c.proxy.max_connections (pos 0) ≡ false
  pub cluster_domain : is_empty c.watch.cluster_domain ≡ false
  pub selector : SelectorIsUsable host c.role c.discovery
  pub log_level : is_log_level c.log_level ≡ true
  pub log_format : is_log_format c.log_format ≡ true

pub not_inv : (b : Bool) → not b ≡ false → b ≡ true
not_inv true h = refl
not_inv false h = absurd (cc h)

modes_differ :
    (text_eq mode_allow mode_disable ≡ false)
    × (text_eq mode_require mode_disable ≡ false)
    × (text_eq mode_require mode_allow ≡ false)
unfolding text_eq
modes_differ = (refl, refl, refl)

or_inv : (a b : Bool) → a || b ≡ true → (a ≡ true) ⊎ (b ≡ true)
or_inv true b h = inl refl
or_inv false b h = inr h

or_false_inv : (a b : Bool) → a || b ≡ false → (a ≡ false) × (b ≡ false)
or_false_inv true b h = absurd (cc h)
or_false_inv false b h = (refl, h)

fail_if-ok {ℓ} : {E : Type ℓ} (b : Bool) (e : E) {u : Unit {0}} → fail_if b e ≡ ok u → b ≡ false
fail_if-ok true e h = cc
fail_if-ok false e h = refl

pub check_tls_mode_inv : (p : ProxyConfig) {u : Unit} → check_tls_mode p ≡ ok u → TlsIsUsable p
unfolding check_tls_mode
check_tls_mode_inv p h = elim (Bool-cases (text_eq p.tls_mode mode_disable)) [
  | inl e ↦ off ((text_eq_iff p.tls_mode mode_disable).0 e)
  | inr e ↦ elim (Bool-cases (text_eq p.tls_mode mode_allow || text_eq p.tls_mode mode_require)) [
    | inr m ↦ absurd (cc (simp (e, m, check_tls_mode) at h))
    | inl m ↦
        let files = or_false_inv _ _ (
          fail_if-ok (is_empty p.tls_cert_file || is_empty p.tls_key_file)
            (needs_tls_files p.tls_mode) (simp (e, m, check_tls_mode) at h)) in
        on
          (elim (or_inv _ _ m) [
            | inl a ↦ inl ((text_eq_iff p.tls_mode mode_allow).0 a)
            | inr r ↦ inr ((text_eq_iff p.tls_mode mode_require).0 r)
          ])
          files.0 files.1
  ]
]

pub check_tls_mode_ok : (p : ProxyConfig) → TlsIsUsable p → check_tls_mode p ≡ ok tt
unfolding check_tls_mode
check_tls_mode_ok p (off m) = simp ((text_eq_iff p.tls_mode mode_disable).1 m, check_tls_mode) refl
check_tls_mode_ok p (on (inl m) c k) =
    simp
      (
        ap (λ x. text_eq x mode_disable) m ∙ modes_differ.0,
        (text_eq_iff p.tls_mode mode_allow).1 m,
        c,
        k,
        check_tls_mode,
      )
      refl
check_tls_mode_ok p (on (inr m) c k) =
    simp
      (
        ap (λ x. text_eq x mode_disable) m ∙ modes_differ.1,
        ap (λ x. text_eq x mode_allow) m ∙ modes_differ.2,
        (text_eq_iff p.tls_mode mode_require).1 m,
        c,
        k,
        check_tls_mode,
      )
      refl

-- What discovery is resolved to.
pub record IsResolvedDiscovery (host : Host) (role : Bytes) (d d' : DiscoveryConfig) : Type 0 where
  pub enabled : d'.enabled ≡ d.enabled && runs_manager role
  pub annotation : d'.database_annotation ≡ d.database_annotation
  pub selector :
      (d'.enabled ≡ false)
      ⊎ ((s : Selector) × (d'.selector ≡ some s)
          × (host.parse_selector d.label_selector ≡ some s)
          × (s.empty ≡ false))

pub resolve_discovery_inv :
    (host : Host) (role : Bytes) (d : DiscoveryConfig) {d' : DiscoveryConfig}
    → resolve_discovery host role d ≡ ok d'
    → SelectorIsUsable host role d × IsResolvedDiscovery host role d d'
unfolding resolve_discovery
resolve_discovery_inv host role d {d'} h = elim (Bool-cases d.enabled) [
  | inr e ↦
      let is : d ≡ d' = cc (simp (e, resolve_discovery) at h) in
      (
        inl (simp e refl),
        subst (IsResolvedDiscovery host role d) is
            (record { enabled = simp e refl; annotation = refl; selector = inl e }),
      )
  | inl e ↦ elim (Bool-cases (runs_manager role)) [
    | inr m ↦
        let is : record d { enabled = false } ≡ d' = cc (simp (e, m, resolve_discovery) at h) in
        (
          inl (simp (e, m) refl),
          subst (IsResolvedDiscovery host role d) is
              (record { enabled = simp (e, m) refl; annotation = refl; selector = inl refl }),
        )
    | inl m ↦ elim (Option-cases (host.parse_selector d.label_selector)) [
      | inl n ↦ absurd (cc (simp (e, m, n, resolve_discovery) at h))
      | inr (s, n) ↦ elim (Bool-cases s.empty) [
        | inl k ↦ absurd (cc (simp (e, m, n, k, resolve_discovery) at h))
        | inr k ↦
            let is : record d { selector = some s } ≡ d' =
              cc (simp (e, m, n, k, resolve_discovery) at h) in
            (
              inr (s, n, k),
              subst (IsResolvedDiscovery host role d) is (record {
                enabled = simp (e, m) refl;
                annotation = refl;
                selector = inr (s, refl, n, k);
              }),
            )
      ]
    ]
  ]
]

pub resolve_discovery_ok :
    (host : Host) (role : Bytes) (d : DiscoveryConfig)
    → SelectorIsUsable host role d
    → (d' : DiscoveryConfig) × (resolve_discovery host role d ≡ ok d')
unfolding resolve_discovery
resolve_discovery_ok host role d u = elim (Bool-cases d.enabled) [
  | inr e ↦ (d, simp (e, resolve_discovery) refl)
  | inl e ↦ elim (Bool-cases (runs_manager role)) [
    | inr m ↦ (record d { enabled = false }, simp (e, m, resolve_discovery) refl)
    | inl m ↦ elim u [
      | inl unwanted ↦ absurd (cc (simp (e, m) at unwanted))
      | inr (s, n, k) ↦ (record d { selector = some s }, simp (e, m, n, k, resolve_discovery) refl)
    ]
  ]
]
