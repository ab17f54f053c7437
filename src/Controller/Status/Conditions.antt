-- ===== src/Controller/Status/Conditions.antt =====
-- The conditions of a status that `Reconcile` wants, as they are read back.
use pg_k8s_proxy.Common.{
  ℕ, ◌≡◌, refl, ◌∙◌, ap, Bytes, Option, none, some, List, [], Bool, true, false, text_eq,
  if◌then◌else◌, Bool-cases, Option-cases, inl, inr,
}
use pg_k8s_proxy.Api.{PostgresRoute}
use pg_k8s_proxy.Registry.Build.{Decision, programmed}
use pg_k8s_proxy.Controller.Status.{
  Condition, RouteStatus, Library, IsLawful, condition_accepted, condition_resolved,
  condition_programmed, status_of, string_of, accepted_condition, resolved_condition,
  programmed_condition, apply_conditions, desired_status,
}

-- A status of this value, at this generation.
abbrev pub Says : ℕ → Bool → Option Condition → Type 0
Says generation value none = ⊥
Says generation value (some c) = (c.status ≡ status_of value) × (c.observed_generation ≡ generation)

pub record Reports (lib : Library) (route : PostgresRoute) (d : Decision) (before s : RouteStatus)
    : Type 0 where
  pub accepted :
      Says route.meta.generation d.accepted
        (lib.find_status_condition s.conditions condition_accepted)
  pub resolved :
      Says route.meta.generation
        (programmed d)
        (lib.find_status_condition s.conditions condition_resolved)
  pub routed :
      Says route.meta.generation
        (programmed d)
        (lib.find_status_condition s.conditions condition_programmed)
  pub others :
      (t : Bytes)
      → text_eq condition_accepted t ≡ false
      → text_eq condition_resolved t ≡ false
      → text_eq condition_programmed t ≡ false
      → lib.find_status_condition s.conditions t ≡ lib.find_status_condition before.conditions t
  pub loser :
      d.accepted ≡ false → (s.endpoint ≡ []) × (s.conflicting_route ≡ string_of d.conflicts_with)
  pub winner : d.accepted ≡ true → (s.endpoint ≡ d.endpoint) × (s.conflicting_route ≡ [])

-- A condition of three that were set one after another.
find_three :
    (lib : Library) (lawful : IsLawful lib) (cs : List Condition) (a r p : Condition) (t : Bytes)
    → lib.find_status_condition
        (lib.set_status_condition (lib.set_status_condition (lib.set_status_condition cs a) r) p)
        t
      ≡ (if text_eq p.type t
          then some p
          else if text_eq r.type t
          then some r
          else if text_eq a.type t
          then some a
          else lib.find_status_condition cs t)
find_three lib lawful cs a r p t =
    lawful.find-set (lib.set_status_condition (lib.set_status_condition cs a) r) p t
    ∙ ap (λ x. if text_eq p.type t then some p else x)
        (lawful.find-set (lib.set_status_condition cs a) r t
          ∙ ap (λ x. if text_eq r.type t then some r else x) (lawful.find-set cs a t))

module _ (lib : Library) (lawful : IsLawful lib) (route : PostgresRoute) (d : Decision) where
  abbrev pub resolved : Condition
  resolved = resolved_condition lib route.meta.generation d

  pub resolved_says :
      (resolved.type ≡ condition_resolved)
      × (resolved.status ≡ status_of (programmed d))
      × (resolved.observed_generation ≡ route.meta.generation)
  resolved_says = elim (Bool-cases d.accepted) [
    | inr a ↦ rw a (refl, refl, refl)
    | inl a ↦ elim (Option-cases d.resolve_err) [
      | inl e ↦ rw (a, e) (refl, refl, refl)
      | inr (x, e) ↦ rw (a, e) (refl, refl, refl)
    ]
  ]

  pub find_wanted :
      (status : RouteStatus) (t : Bytes)
      → lib.find_status_condition (desired_status lib route d status).conditions t ≡ (
          if text_eq condition_programmed t
          then some (programmed_condition lib route.meta.generation d)
          else if text_eq condition_resolved t
          then some resolved
          else if text_eq condition_accepted t
          then some (accepted_condition lib route.meta.generation d)
          else lib.find_status_condition status.conditions t)
  unfolding desired_status apply_conditions
  find_wanted status t =
      find_three lib lawful status.conditions (accepted_condition lib route.meta.generation d)
        resolved (programmed_condition lib route.meta.generation d) t
      ∙ ap
          (λ x.
            if text_eq condition_programmed t
            then some (programmed_condition lib route.meta.generation d)
            else if text_eq x t
            then some resolved
            else if text_eq condition_accepted t
            then some (accepted_condition lib route.meta.generation d)
            else lib.find_status_condition status.conditions t)
          resolved_says.0

  -- With a lawful library of conditions, the status that is wanted for a decision says Accepted as
  -- the decision does, and Resolved and Programmed exactly if the route serves traffic, all of them
  -- for the route's generation. No other condition is touched, and a route that lost its name shows
  -- no endpoint but the winner, whereas one that won shows its endpoint and no conflict.
  pub desired_status-Reports :
      (status : RouteStatus) → Reports lib route d status (desired_status lib route d status)
  unfolding desired_status apply_conditions text_eq
  desired_status-Reports status = record {
    accepted = rw (find_wanted status condition_accepted) (refl, refl);
    resolved = rw (find_wanted status condition_resolved) (resolved_says.1, resolved_says.2);
    routed = rw (find_wanted status condition_programmed) (refl, refl);
    others = λ t a r p. find_wanted status t ∙ simp (p, r, a) refl;
    loser = λ a. rw (a, apply_conditions) (refl, refl);
    winner = λ a. rw (a, apply_conditions) (refl, refl);
  }
