-- ===== src/Wiring/Roles.antt =====
-- Which parts the settings that `Validate` returned give a process.
use pg_k8s_proxy.Common.{
  ◌≡◌, refl, sym, ap, ◌∙◌, ◌⊎◌, inl, inr, pos, List, [], ◌∷◌, ◌++◌, Bool, true, false, ◌&&◌, Result,
  ok, err, is_empty, Bool-cases, Result-cases,
}
use pg_k8s_proxy.Config.{Settings, Host, runs_proxy, runs_manager, validate}
use pg_k8s_proxy.Config.Checked.{validate_inv, validate-IsResolved}
use pg_k8s_proxy.Controller.RouteTable.Setup.{BuilderReady, setup_builder}
use pg_k8s_proxy.Controller.Discovery.Events.{setup}
use pg_k8s_proxy.Gateway.{TlsFiles, GatewayError, new_gateway}
use pg_k8s_proxy.Wiring.{
  Part, table_builder, status_reconciler, gateway, probes, Options, RunError, creating_gateway,
  Platform, manager_options, add_part, add_builder, add_discovery, add_reconcilers, add_gateway,
  prepare,
}
use pg_k8s_proxy.Wiring.Parts.{
  Writers, no_writer, only_status, with_discovery, Gateways, no_gateway, one_gateway,
  without_leader, serving,
}

-- No call of the libraries fails before the manager starts.
pub record IsFaultless (p : Platform) : Type 0 where
  pub types : p.registers_types ≡ true
  pub manager : p.creates_manager ≡ true
  pub adds : (part : Part) → p.adds part ≡ true

-- The builder that the settings give.
abbrev pub ready_for : Settings → BuilderReady
ready_for c' = record {
  cluster_domain = c'.watch.cluster_domain;
  ca_bundles = c'.watch.watch_secrets;
  debounce = pos 200;
}

pub data Prepared (files : TlsFiles) (host : Host) (c c' : Settings)
    : Result RunError (Options × List Part) → Type 0 where
  prepared :
      {writers gateways : List Part}
      → Writers host c c' writers
      → Gateways files c' gateways
      → (let builder = table_builder (ready_for c') in
          without_leader (builder ∷ (writers ++ (gateways ++ (probes c'.health_bind_address ∷ []))))
          ≡ builder ∷ (gateways ++ (probes c'.health_bind_address ∷ [])))
      → Prepared files host c c' (
          ok (
            manager_options c',
            table_builder (ready_for c')
                ∷ (writers ++ (gateways ++ (probes c'.health_bind_address ∷ []))),
          ))
  gateway_fails :
      (e : GatewayError)
      → runs_proxy c'.role ≡ true
      → new_gateway files c'.proxy ≡ err e
      → Prepared files host c c' (err (creating_gateway e))

and_off : (a b : Bool) → b ≡ false → a && b ≡ false
and_off true b h = h
and_off false b h = refl

and_inv : (a b : Bool) → a && b ≡ true → a ≡ true
and_inv true b h = refl
and_inv false b h = absurd (cc h)

module _ (platform : Platform) (faultless : IsFaultless platform) (files : TlsFiles)
    (c' : Settings) where
  add_part_ok : (part : Part) → add_part platform files c' part ≡ ok (part ∷ [])
  add_part_ok part = rw (faultless.adds part) refl

  add_builder_lem :
      is_empty c'.watch.cluster_domain ≡ false
      → add_builder platform files c' ≡ ok (table_builder (ready_for c') ∷ [])
  unfolding add_builder setup_builder
  add_builder_lem d = simp (d, faultless.adds, add_builder, setup_builder) refl

  add_gateway-Gateways :
      ((gs : List Part) × (add_gateway platform files c' ≡ ok gs) × Gateways files c' gs)
      ⊎ ((e : GatewayError) × (runs_proxy c'.role ≡ true)
          × (new_gateway files c'.proxy ≡ err e)
          × (add_gateway platform files c' ≡ err (creating_gateway e)))
  unfolding add_gateway
  add_gateway-Gateways = elim (Bool-cases (runs_proxy c'.role)) [
    | inr p ↦ inl ([], simp (p, add_gateway) refl, no_gateway p)
    | inl p ↦ elim (Result-cases (new_gateway files c'.proxy)) [
      | inl ((config, slots), g) ↦ inl (
        gateway config slots ∷ [],
        simp (p, g, faultless.adds, add_gateway) refl,
        one_gateway config slots p g,
      )
      | inr (e, g) ↦ inr (e, p, g, simp (p, g, add_gateway) refl)
    ]
  ]

  add_reconcilers-Writers :
      (host : Host) (c : Settings)
      → validate host c ≡ ok c'
      → (ws : List Part) × (add_reconcilers platform files c' ≡ ok ws) × Writers host c c' ws
  unfolding add_reconcilers add_discovery setup
  add_reconcilers-Writers host c v =
      let r = validate-IsResolved host c v in
      elim (Bool-cases (runs_manager c'.role)) [
        | inr m ↦ (
          [],
          simp (m, add_reconcilers) refl,
          no_writer m (r.leader ∙ and_off c.leader.enabled _ (sym (ap runs_manager r.role) ∙ m)),
        )
        | inl m ↦ elim (Bool-cases c'.discovery.enabled) [
          | inr d ↦ (
            status_reconciler ∷ [],
            simp (m, d, faultless.adds, add_reconcilers, add_discovery) refl,
            only_status m d,
          )
          | inl d ↦ elim r.discovery.selector [
            | inl off ↦ absurd (cc (d, off))
            | inr (s, is, parsed, full) ↦ (
              _,
              simp
                  (
                    m, d, is, full, faultless.adds, r.discovery.annotation, add_reconcilers,
                    add_discovery, setup,
                  )
                  refl,
              with_discovery s m (and_inv _ _ (sym r.discovery.enabled ∙ d)) parsed full,
            )
          ]
        ]
      ]

-- With settings that `Validate` returned and library calls that succeed, the parts of a process
-- are: the table builder and the probes, always; the reconcilers that write, and the election of a
-- leader, only if the role runs the manager, discovery only if it was asked for and with the
-- selector that was parsed, which is not empty; and the gateway exactly if the role runs it. The
-- one error left is that the gateway cannot be created.
pub prepare-Prepared :
    (platform : Platform) (files : TlsFiles) (host : Host) (c : Settings) {c' : Settings}
    → IsFaultless platform
    → validate host c ≡ ok c'
    → Prepared files host c c' (prepare platform files c')
unfolding prepare
prepare-Prepared platform files host c {c'} faultless v =
    let (accepted, d, resolved, is) = validate_inv host c v in
    let domain : is_empty c'.watch.cluster_domain ≡ false =
      ap (λ x. is_empty x.watch.cluster_domain) is ∙ accepted.cluster_domain in
    let built = add_builder_lem platform faultless files c' domain in
    let (ws, added, writers) = add_reconcilers-Writers platform faultless files c' host c v in
    elim (add_gateway-Gateways platform faultless files c') [
      | inl (gs, g, gateways) ↦
          simp (faultless.types, faultless.manager, built, added, g, faultless.adds, prepare)
            (prepared writers gateways
              (serving (ready_for c') c'.health_bind_address writers gateways))
      | inr (e, p, n, g) ↦
          simp (faultless.types, faultless.manager, built, added, g, prepare) (gateway_fails e p n)
    ]
