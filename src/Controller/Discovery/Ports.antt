-- ===== src/Controller/Discovery/Ports.antt =====
-- The port that discovery writes, as the registry resolves it.
use pg_k8s_proxy.Common.{
  ◌≡◌, refl, sym, ap, ◌∙◌, ℤ, pos, Bytes, none, some, List, [], ◌∷◌, true, false, ok, err, ◌⊎◌, inl,
  inr, is_empty, eq_ℤ, eq_ℤ_iff, Bool-cases, Option-cases, ◌≢◌,
}
use pg_k8s_proxy.Api.{IntOrString}
use pg_k8s_proxy.Registry.Resolve.{no_port}
use pg_k8s_proxy.Registry.Client.{
  ServicePort, ClientResolver, has_port, choose_port, resolve_service_port,
}
use pg_k8s_proxy.Controller.Services.{
  Service, value_of, port_annotation, is_postgres_name, postgres_port, has_5432, sole_port,
  chosen_port, port,
}

has_5432-has_port : (ports : List ServicePort) → has_5432 ports ≡ has_port (pos 5432) ports
unfolding has_5432 has_port
has_5432-has_port [] = refl
has_5432-has_port (p ∷ ps) = elim (Bool-cases (eq_ℤ p.port (pos 5432))) [
  | inl e ↦ simp (e, has_5432, has_port) refl
  | inr e ↦ simp (e, has_5432, has_port) (has_5432-has_port ps)
]

has_port-here : (p : ServicePort) (ps : List ServicePort) → has_port p.port (p ∷ ps) ≡ true
unfolding has_port
has_port-here p ps = simp ((eq_ℤ_iff p.port p.port).1 refl, has_port) refl

has_port-there :
    (n : ℤ) (p : ServicePort) (ps : List ServicePort)
    → has_port n ps ≡ true
    → has_port n (p ∷ ps) ≡ true
unfolding has_port
has_port-there n p ps h = elim (Bool-cases (eq_ℤ p.port n)) [
  | inl e ↦ simp (e, has_port) refl
  | inr e ↦ simp (e, has_port) h
]

postgres_port-has_port :
    (ports : List ServicePort) {n : ℤ} → postgres_port ports ≡ some n → has_port n ports ≡ true
unfolding postgres_port
postgres_port-has_port [] h = absurd cc
postgres_port-has_port (p ∷ ps) {n} h = elim (Bool-cases (is_postgres_name p.name)) [
  | inl e ↦
      let is : p.port ≡ n = cc (simp (e, postgres_port) at h) in
      ap (λ x. has_port x (p ∷ ps)) (sym is) ∙ has_port-here p ps
  | inr e ↦ has_port-there n p ps (postgres_port-has_port ps (simp (e, postgres_port) at h))
]

-- The Service has no PostgreSQL port that could be told: none is named so, none is 5432, and there
-- is not just one.
pub record HasNoPostgresPort (ports : List ServicePort) : Type 0 where
  pub unnamed : postgres_port ports ≡ none
  pub not_5432 : has_port (pos 5432) ports ≡ false
  pub several : (p : ServicePort) → ports ≢ (p ∷ [])

sole_port-cases :
    (ports : List ServicePort)
    → (has_port (sole_port ports) ports ≡ true)
      ⊎ ((sole_port ports ≡ pos 5432) × ((p : ServicePort) → ports ≢ (p ∷ [])))
sole_port-cases [] = inr (refl, λ p h. absurd (cc h))
sole_port-cases (p ∷ []) = inl (has_port-here p [])
sole_port-cases (p ∷ q ∷ ps) = inr (refl, λ k h. absurd (cc h))

chosen_port-cases :
    (ports : List ServicePort)
    → (has_port (chosen_port ports) ports ≡ true)
      ⊎ ((chosen_port ports ≡ pos 5432) × HasNoPostgresPort ports)
unfolding chosen_port
chosen_port-cases ports = elim (Option-cases (postgres_port ports)) [
  | inr (n, e) ↦ inl (rw (e, chosen_port) (postgres_port-has_port ports e))
  | inl e ↦ elim (Bool-cases (has_5432 ports)) [
    | inl f ↦ inl (rw (e, f, chosen_port) (sym (has_5432-has_port ports) ∙ f))
    | inr f ↦ elim (sole_port-cases ports) [
      | inl h ↦ inl (rw (e, f, chosen_port) h)
      | inr (d, more) ↦ inr (
          rw (e, f, chosen_port)
            (
              d,
              record { unnamed = e; not_5432 = sym (has_5432-has_port ports) ∙ f; several = more },
            ))
    ]
  ]
]

-- With a resolver that reads the Service as discovery did, the port of a route that discovery
-- generates for a Service without a port annotation resolves to the port that was chosen; it fails
-- to only where no port of the Service is named postgresql or postgres, none is 5432 and there is
-- not exactly one, and then the error is that the Service has no port 5432.
pub discovered_port_resolves :
    (parse : Bytes → IntOrString) (r : ClientResolver) (svc : Service)
    → r.client.get_service svc.key.namespace svc.key.name ≡ ok svc.ports
    → is_empty (value_of svc.annotations port_annotation) ≡ true
    → let resolved = resolve_service_port r svc.key.namespace svc.key.name (port parse svc) in
      (resolved ≡ ok (chosen_port svc.ports))
      ⊎ ((resolved ≡ err (no_port svc.key.namespace svc.key.name (pos 5432)))
          × HasNoPostgresPort svc.ports)
unfolding resolve_service_port choose_port port
discovered_port_resolves parse r svc g a = elim (chosen_port-cases svc.ports) [
  | inl h ↦ inl (rw (g, resolve_service_port) (simp (a, h, port, choose_port) refl))
  | inr (d, lacking) ↦ inr (
    rw (g, resolve_service_port) (simp (a, d, lacking.not_5432, port, choose_port) refl),
    lacking,
  )
]
