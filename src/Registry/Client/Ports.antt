-- ===== src/Registry/Client/Ports.antt =====
-- Which port `ResolveServicePort` returns.
use pg_k8s_proxy.Common.{
  ℕ, ◌≡◌, refl, sym, ap, ◌∙◌, ℤ, pos, Bytes, Option, none, some, List, [], ◌∷◌, true, Result, ok,
  err, ◌⊎◌, inl, inr, text_eq, text_eq_iff, eq_ℤ, eq_ℤ_iff, Bool-cases, Option-cases, Result-cases,
}
use pg_k8s_proxy.Api.{IntOrString, int, string, untyped}
use pg_k8s_proxy.Registry.Resolve.{ResolveError}
use pg_k8s_proxy.Registry.Client.{
  ServicePort, ClientResolver, parse_port_number, has_port, port_named, choose_port,
  resolve_service_port,
}

-- The list has a port with this number, under a name of which the predicate holds.
pub data Declares (P : Bytes → Type 0) (n : ℤ) : List ServicePort → Type 0 where
  here : {p : ServicePort} {ps : List ServicePort} → p.port ≡ n → P p.name → Declares P n (p ∷ ps)
  there : {p : ServicePort} {ps : List ServicePort} → Declares P n ps → Declares P n (p ∷ ps)

-- What a reference says of the port that it means.
abbrev pub Means : IntOrString → ℤ → Bytes → Type 0
Means (int want) n name = n ≡ want
Means (string s) n name =
    ((m : ℕ) × (parse_port_number s ≡ some m) × (n ≡ pos m))
    ⊎ ((parse_port_number s ≡ none) × (name ≡ s))
Means untyped n name = ⊥

has_port-Declares :
    (P : Bytes → Type 0) (n : ℤ) (ps : List ServicePort)
    → ((name : Bytes) → P name)
    → has_port n ps ≡ true
    → Declares P n ps
unfolding has_port
has_port-Declares P n [] all h = absurd cc
has_port-Declares P n (p ∷ ps) all h = elim (Bool-cases (eq_ℤ p.port n)) [
  | inl e ↦ here ((eq_ℤ_iff p.port n).0 e) (all p.name)
  | inr e ↦ there (has_port-Declares P n ps all (simp (e, has_port) at h))
]

port_named-Declares :
    (s : Bytes) (n : ℤ) (ps : List ServicePort)
    → port_named s ps ≡ some n
    → Declares (λ name. name ≡ s) n ps
unfolding port_named
port_named-Declares s n [] h = absurd cc
port_named-Declares s n (p ∷ ps) h = elim (Bool-cases (text_eq p.name s)) [
  | inl e ↦ here (cc (simp (e, port_named) at h)) ((text_eq_iff p.name s).0 e)
  | inr e ↦ there (port_named-Declares s n ps (simp (e, port_named) at h))
]

map_Declares :
    {P Q : Bytes → Type 0} (n : ℤ) (ps : List ServicePort)
    → ((name : Bytes) → P name → Q name)
    → Declares P n ps
    → Declares Q n ps
map_Declares n [] f d = elim d [ ]
map_Declares n (p ∷ ps) f (here e h) = here e (f p.name h)
map_Declares n (p ∷ ps) f (there d) = there (map_Declares n ps f d)

choose_string-Declares :
    (namespace name s : Bytes) (ports : List ServicePort) {n : ℤ}
    → choose_port namespace name ports (string s) ≡ ok n
    → Declares (Means (string s) n) n ports
unfolding choose_port
choose_string-Declares namespace name s ports {n} h = elim (Option-cases (parse_port_number s)) [
  | inr (m, q) ↦ elim (Bool-cases (has_port (pos m) ports)) [
    | inr e ↦ absurd (cc (rw (q, e, choose_port) at h))
    | inl e ↦
        let is_m : pos m ≡ n = cc (rw (q, e, choose_port) at h) in
        rw (sym is_m)
          (has_port-Declares (Means (string s) (pos m)) (pos m) ports (λ j. inl (m, q, refl)) e)
  ]
  | inl q ↦ elim (Option-cases (port_named s ports)) [
    | inl e ↦ absurd (cc (rw (q, e, choose_port) at h))
    | inr (k, e) ↦
        let is_k : k ≡ n = cc (rw (q, e, choose_port) at h) in
        map_Declares n ports (λ j i. inr (q, i)) (port_named-Declares s n ports (e ∙ ap some is_k))
  ]
]

choose_port-Declares :
    (namespace name : Bytes) (ports : List ServicePort) (ref : IntOrString) {n : ℤ}
    → choose_port namespace name ports ref ≡ ok n
    → Declares (Means ref n) n ports
unfolding choose_port
choose_port-Declares namespace name ports (int want) {n} h =
    elim (Bool-cases (has_port want ports)) [
      | inr e ↦ absurd (cc (rw (e, choose_port) at h))
      | inl e ↦
          let is_want : want ≡ n = cc (rw (e, choose_port) at h) in
          has_port-Declares (Means (int want) n) n ports (λ j. sym is_want)
            (ap (λ x. has_port x ports) (sym is_want) ∙ e)
    ]
choose_port-Declares namespace name ports (string s) h =
    choose_string-Declares namespace name s ports h
choose_port-Declares namespace name ports untyped h = absurd cc

-- A port that a reference resolves to is one that the Service declares: the number that the
-- reference gives, as an integer or in digits, or else the port that has the name.
resolve_service_port-Declares :
    (r : ClientResolver) (namespace name : Bytes) (ref : IntOrString) {n : ℤ}
    → resolve_service_port r namespace name ref ≡ ok n
    → (ports : List ServicePort) × (r.client.get_service namespace name ≡ ok ports)
      × Declares (Means ref n) n ports
unfolding resolve_service_port
resolve_service_port-Declares r namespace name ref h =
    elim (Result-cases (r.client.get_service namespace name)) [
      | inr (e, g) ↦ absurd (cc (rw (g, resolve_service_port) at h))
      | inl (ports, g) ↦ (
        ports,
        g,
        choose_port-Declares namespace name ports ref (rw (g, resolve_service_port) at h),
      )
    ]

-- The port, without what is wrong.
abbrev pub port_of : Result ResolveError ℤ → Option ℤ
port_of (ok n) = some n
port_of (err e) = none

-- A port in digits, as a string, resolves to what the same number as an integer resolves to, and
-- fails where that fails.
resolve_service_port-digits :
    (r : ClientResolver) (namespace name s : Bytes) {m : ℕ}
    → parse_port_number s ≡ some m
    → port_of (resolve_service_port r namespace name (string s))
      ≡ port_of (resolve_service_port r namespace name (int (pos m)))
unfolding resolve_service_port choose_port
resolve_service_port-digits r namespace name s {m} q =
    elim (Result-cases (r.client.get_service namespace name)) [
      | inr (e, g) ↦ rw (g, resolve_service_port) refl
      | inl (ports, g) ↦ elim (Bool-cases (has_port (pos m) ports)) [
        | inl e ↦ rw (g, resolve_service_port) (rw (q, choose_port) (rw e refl))
        | inr e ↦ rw (g, resolve_service_port) (rw (q, choose_port) (rw e refl))
      ]
    ]
