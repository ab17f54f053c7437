-- ===== src/Config/Checked.antt =====
-- Which settings `Validate` takes, and what it makes of them.
use pg_k8s_proxy.Common.{
  ◌≡◌, refl, sym, subst, ◌⊎◌, inl, inr, ◌↔◌, pos, Bytes, List, [], ◌∷◌, true, false, not, ◌&&◌, ok,
  bind-eq-ok, fail_if_inv, is_empty, ltb_ℤ, All, Bool-cases,
}
use pg_k8s_proxy.Config.Trim.{trim_space}
use pg_k8s_proxy.Config.{
  Settings, DiscoveryConfig, Host, runs_manager, is_role, is_log_level, is_log_format,
  check_tls_mode, resolve_discovery, resolve_leader, trim_namespaces, current_namespace,
  with_derived, validate, negative_connections, no_cluster_domain, bad_role, bad_log_level,
  bad_log_format,
}
use pg_k8s_proxy.Config.Rules.{
  IsAccepted, not_inv, check_tls_mode_inv, check_tls_mode_ok, IsResolvedDiscovery,
  resolve_discovery_inv, resolve_discovery_ok,
}

-- All that `validate` made sure of, and what it returned.
pub validate_inv :
    (host : Host) (c : Settings) {c' : Settings}
    → validate host c ≡ ok c'
    → IsAccepted host c
      × (d : DiscoveryConfig) × IsResolvedDiscovery host c.role c.discovery d
      × (c' ≡ with_derived host c d)
unfolding validate
validate_inv host c h =
    let (role, h1) = fail_if_inv (not (is_role c.role)) (bad_role c.role) _ h in
    let (u, tls, h2) = bind-eq-ok (check_tls_mode c.proxy) _ h1 in
    let (connections, h3) =
      fail_if_inv (ltb_ℤ c.proxy.max_connections (pos 0))
        (negative_connections c.proxy.max_connections) _ h2 in
    let (domain, h4) = fail_if_inv (is_empty c.watch.cluster_domain) no_cluster_domain _ h3 in
    let (d, discovery, h5) = bind-eq-ok (resolve_discovery host c.role c.discovery) _ h4 in
    let (level, h6) =
      fail_if_inv (not (is_log_level c.log_level)) (bad_log_level c.log_level) _ h5 in
    let (format, h7) =
      fail_if_inv (not (is_log_format c.log_format)) (bad_log_format c.log_format) _ h6 in
    let (usable, resolved) = resolve_discovery_inv host c.role c.discovery discovery in
    (
      record {
        role = not_inv _ role;
        tls = check_tls_mode_inv c.proxy tls;
        connections = connections;
        cluster_domain = domain;
        selector = usable;
        log_level = not_inv _ level;
        log_format = not_inv _ format;
      },
      d,
      resolved,
      cc h7,
    )

validate_ok :
    (host : Host) (c : Settings) → IsAccepted host c → (c' : Settings) × (validate host c ≡ ok c')
unfolding validate
validate_ok host c a =
    let (d, found) = resolve_discovery_ok host c.role c.discovery a.selector in
    (
      with_derived host c d,
      simp
          (
            a.role,
            check_tls_mode_ok c.proxy a.tls,
            a.connections,
            a.cluster_domain,
            found,
            a.log_level,
            a.log_format,
            validate,
          )
          refl,
    )

-- `Validate` takes the settings exactly where the role and the TLS mode are ones it knows, TLS that
-- is not off has both of its files, the connections are not limited to fewer than none, the cluster
-- domain is not empty, a selector that discovery will use parses and is not empty, and the log's
-- level and format are ones it knows.
pub validate_accepts :
    (host : Host) (c : Settings) → ((c' : Settings) × (validate host c ≡ ok c')) ↔ IsAccepted host c
validate_accepts host c = (λ h. (validate_inv host c h.1).0, λ a. validate_ok host c a)

pub record IsResolved (host : Host) (c c' : Settings) : Type 0 where
  pub role : c'.role ≡ c.role
  pub proxy : c'.proxy ≡ c.proxy
  pub discovery : IsResolvedDiscovery host c.role c.discovery c'.discovery
  pub leader : c'.leader.enabled ≡ c.leader.enabled && runs_manager c.role
  pub lease_namespace :
      (is_empty c.leader.namespace ≡ false) × (c'.leader.namespace ≡ c.leader.namespace)
      ⊎ (is_empty c.leader.namespace ≡ true) × (c'.leader.namespace ≡ current_namespace host)
  pub namespaces : All (λ ns. is_empty ns ≡ false) c'.watch.namespaces

trim_namespaces-All : (l : List Bytes) → All (λ ns. is_empty ns ≡ false) (trim_namespaces l)
unfolding trim_namespaces
trim_namespaces-All [] = tt
trim_namespaces-All (ns ∷ rest) = elim (Bool-cases (is_empty (trim_space ns))) [
  | inl e ↦ simp (e, trim_namespaces) (trim_namespaces-All rest)
  | inr e ↦ simp (e, trim_namespaces) (refl, trim_namespaces-All rest)
]

with_derived-IsResolved :
    (host : Host) (c : Settings) (d : DiscoveryConfig)
    → IsResolvedDiscovery host c.role c.discovery d
    → IsResolved host c (with_derived host c d)
unfolding resolve_leader
with_derived-IsResolved host c d resolved = record {
  role = refl;
  proxy = refl;
  discovery = resolved;
  leader = refl;
  lease_namespace = elim (Bool-cases (is_empty c.leader.namespace)) [
    | inl e ↦ inr (e, simp e refl)
    | inr e ↦ inl (e, simp e refl)
  ];
  namespaces = trim_namespaces-All c.watch.namespaces;
}

-- Settings that `Validate` returned keep their role and their gateway's settings; they discover and
-- elect only where that was asked for and the role runs the manager, and then with the selector
-- that was parsed, one that is not empty; the lease's namespace is the one that was given, or else
-- the process's own; and no namespace that is watched is empty.
pub validate-IsResolved :
    (host : Host) (c : Settings) {c' : Settings} → validate host c ≡ ok c' → IsResolved host c c'
validate-IsResolved host c h =
    let (a, d, resolved, is) = validate_inv host c h in
    subst (IsResolved host c) (sym is) (with_derived-IsResolved host c d resolved)
