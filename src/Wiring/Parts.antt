-- ===== src/Wiring/Parts.antt =====
-- The parts of a process by what they do, and which of them wait for the leader election.
use pg_k8s_proxy.Common.{
  Bytes, ℕ, ◌≡◌, refl, ap, ◌∙◌, inl, inr, Option, some, List, [], ◌∷◌, ◌++◌, true, false, ok,
  is_empty, if◌then◌else◌, Bool-cases,
}
use pg_k8s_proxy.Config.{Settings, Selector, Host, runs_proxy, runs_manager}
use pg_k8s_proxy.Proxy.Server.{Config}
use pg_k8s_proxy.Controller.Services.{database_annotation_default}
use pg_k8s_proxy.Controller.RouteTable.Setup.{BuilderReady}
use pg_k8s_proxy.Gateway.{TlsFiles, new_gateway}
use pg_k8s_proxy.Wiring.{
  Part, table_builder, status_reconciler, discovery_reconciler, gateway, probes,
  needs_leader_election,
}

-- The parts that write to the cluster, and the election that guards them.
pub data Writers (host : Host) (c c' : Settings) : List Part → Type 0 where
  no_writer : runs_manager c'.role ≡ false → c'.leader.enabled ≡ false → Writers host c c' []
  only_status :
      runs_manager c'.role ≡ true
      → c'.discovery.enabled ≡ false
      → Writers host c c' (status_reconciler ∷ [])
  with_discovery :
      (s : Selector)
      → runs_manager c'.role ≡ true
      → c.discovery.enabled ≡ true
      → host.parse_selector c.discovery.label_selector ≡ some s
      → s.empty ≡ false
      → Writers host c c' (
          status_reconciler
          ∷ discovery_reconciler s (
              if is_empty c.discovery.database_annotation
              then database_annotation_default
              else c.discovery.database_annotation)
          ∷ [])

pub data Gateways (files : TlsFiles) (c' : Settings) : List Part → Type 0 where
  no_gateway : runs_proxy c'.role ≡ false → Gateways files c' []
  one_gateway :
      (config : Config) (slots : Option ℕ)
      → runs_proxy c'.role ≡ true
      → new_gateway files c'.proxy ≡ ok (config, slots)
      → Gateways files c' (gateway config slots ∷ [])

-- What runs without being the leader.
unfoldable pub without_leader : List Part → List Part
without_leader [] = []
without_leader (part ∷ parts) =
    let rest = without_leader parts in if needs_leader_election part then rest else part ∷ rest

without_leader-append :
    (ps qs : List Part) → without_leader (ps ++ qs) ≡ without_leader ps ++ without_leader qs
unfolding without_leader
without_leader-append [] qs = refl
without_leader-append (p ∷ ps) qs = elim (Bool-cases (needs_leader_election p)) [
  | inl n ↦ simp (n, without_leader) (without_leader-append ps qs)
  | inr n ↦ simp (n, without_leader) (ap (λ rest. p ∷ rest) (without_leader-append ps qs))
]

without_leader-Writers :
    {host : Host} {c c' : Settings} {ws : List Part} → Writers host c c' ws → without_leader ws ≡ []
unfolding without_leader needs_leader_election
without_leader-Writers (no_writer m e) = refl
without_leader-Writers (only_status m d) = refl
without_leader-Writers (with_discovery s m d p f) = refl

without_leader-Gateways :
    {files : TlsFiles} {c' : Settings} {gs : List Part}
    → Gateways files c' gs
    → without_leader gs ≡ gs
unfolding without_leader needs_leader_election
without_leader-Gateways (no_gateway p) = refl
without_leader-Gateways (one_gateway config slots p g) = refl

-- The writers are what the leader election holds back.
pub serving :
    {host : Host} {files : TlsFiles} {c c' : Settings} {ws gs : List Part} (ready : BuilderReady)
    (bind : Bytes)
    → Writers host c c' ws
    → Gateways files c' gs
    → without_leader (table_builder ready ∷ (ws ++ (gs ++ (probes bind ∷ []))))
      ≡ table_builder ready ∷ (gs ++ (probes bind ∷ []))
unfolding without_leader needs_leader_election
serving {ws = ws} {gs = gs} ready bind w g =
    ap (λ rest. table_builder ready ∷ rest)
      (without_leader-append ws (gs ++ (probes bind ∷ []))
        ∙ ap (λ x. x ++ without_leader (gs ++ (probes bind ∷ []))) (without_leader-Writers w)
        ∙ without_leader-append gs (probes bind ∷ [])
        ∙ ap (λ x. x ++ (probes bind ∷ [])) (without_leader-Gateways g))
