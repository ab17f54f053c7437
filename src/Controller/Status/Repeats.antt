-- ===== src/Controller/Status/Repeats.antt =====
-- A reconcile that follows one that patched the status.
use pg_k8s_proxy.Common.{
  ◌≡◌, refl, sym, ap, ◌∙◌, inl, inr, none, some, List, [], ◌∷◌, true, false, ok, Assoc, lookup,
  text_eq, text_eq_iff, All, arith, Bool-cases, Option-cases,
}
use pg_k8s_proxy.Api.{NamespacedName, name_keys, PostgresRoute}
use pg_k8s_proxy.Registry.Build.{Decision}
use pg_k8s_proxy.Controller.Status.{
  Condition, RouteStatus, Library, IsLawful, condition_accepted, condition_resolved,
  condition_programmed, accepted_condition, resolved_condition, programmed_condition,
  apply_conditions, desired_status,
}
use pg_k8s_proxy.Controller.Status.Conditions.{find_wanted, resolved_says}
use pg_k8s_proxy.Controller.Status.Writing.{
  StoredRoute, StatusClient, done, same_condition, conditions_match, equal_status, write_status,
  reconcile_status,
}

-- Each condition is the one that is found under its type.
abbrev pub EachFound : Library → List Condition → Type 0
EachFound lib cs = All (λ c. lib.find_status_condition cs c.type ≡ some c) cs

-- No two conditions have the same type, as the API server demands of a stored status.
abbrev pub Distinct : List Condition → Type 0
Distinct [] = Unit
Distinct (c ∷ cs) = All (λ d. text_eq c.type d.type ≡ false) cs × Distinct cs

-- What is documented besides: a condition that is set again as it stands changes nothing; a setting
-- adds no second condition of a type; and what is found is the condition of the type.
pub record IsSteady (lib : Library) : Type 0 where
  pub lawful : IsLawful lib
  pub set_same :
      (cs : List Condition) (c : Condition)
      → lib.find_status_condition cs c.type ≡ some c
      → lib.set_status_condition cs c ≡ cs
  pub set-Distinct :
      (cs : List Condition) (c : Condition) → Distinct cs → Distinct (lib.set_status_condition cs c)
  pub find-Distinct : (cs : List Condition) → Distinct cs → EachFound lib cs

same_condition_refl : (c : Condition) → same_condition c c ≡ true
unfolding same_condition
same_condition_refl c =
    simp
      (
        (text_eq_iff c.status c.status).1 refl,
        (text_eq_iff c.reason c.reason).1 refl,
        (text_eq_iff c.message c.message).1 refl,
        same_condition,
      )
      (ground arith)

conditions_match_refl :
    (lib : Library) (cs wanted : List Condition)
    → All (λ c. lib.find_status_condition cs c.type ≡ some c) wanted
    → conditions_match lib cs wanted ≡ true
unfolding conditions_match
conditions_match_refl lib cs [] h = refl
conditions_match_refl lib cs (want ∷ rest) (found, more) =
    simp (found, same_condition_refl want, conditions_match)
      (conditions_match_refl lib cs rest more)

equal_status_refl :
    (lib : Library) (s : RouteStatus) → EachFound lib s.conditions → equal_status lib s s ≡ true
unfolding equal_status
equal_status_refl lib s h =
    simp
      (
        (text_eq_iff s.database s.database).1 refl,
        (text_eq_iff s.endpoint s.endpoint).1 refl,
        (text_eq_iff s.conflicting_route s.conflicting_route).1 refl,
        conditions_match_refl lib s.conditions s.conditions h,
        equal_status,
      )
      (ground arith)

module _ (lib : Library) (steady : IsSteady lib) (route : PostgresRoute) (d : Decision) where
  abbrev wanted : RouteStatus → RouteStatus
  wanted = desired_status lib route d

  wanted-EachFound : (s : RouteStatus) → Distinct s.conditions → EachFound lib (wanted s).conditions
  unfolding desired_status apply_conditions
  wanted-EachFound s h =
      steady.find-Distinct _
        (steady.set-Distinct _ _ (steady.set-Distinct _ _ (steady.set-Distinct _ _ h)))

  differ :
      (text_eq condition_programmed condition_resolved ≡ false)
      × (text_eq condition_programmed condition_accepted ≡ false)
      × (text_eq condition_resolved condition_accepted ≡ false)
  unfolding text_eq
  differ = (refl, refl, refl)

  -- The three conditions of a status that is wanted are found in it.
  finds_accepted :
      (s : RouteStatus)
      → lib.find_status_condition (wanted s).conditions condition_accepted
        ≡ some (accepted_condition lib route.meta.generation d)
  finds_accepted s =
      find_wanted lib steady.lawful route d s condition_accepted
      ∙ rw (differ.1, differ.2)
          (rw ((text_eq_iff condition_accepted condition_accepted).1 refl) refl)

  finds_resolved :
      (s : RouteStatus)
      → lib.find_status_condition
          (wanted s).conditions
          (resolved_condition lib route.meta.generation d).type
        ≡ some (resolved_condition lib route.meta.generation d)
  finds_resolved s =
      ap (lib.find_status_condition (wanted s).conditions)
        (resolved_says lib steady.lawful route d).0
      ∙ find_wanted lib steady.lawful route d s condition_resolved
      ∙ rw differ.0 (rw ((text_eq_iff condition_resolved condition_resolved).1 refl) refl)

  finds_programmed :
      (s : RouteStatus)
      → lib.find_status_condition (wanted s).conditions condition_programmed
        ≡ some (programmed_condition lib route.meta.generation d)
  finds_programmed s =
      find_wanted lib steady.lawful route d s condition_programmed
      ∙ rw ((text_eq_iff condition_programmed condition_programmed).1 refl) refl

  -- The three conditions, set where they are found.
  set_found :
      (cs : List Condition) (a r p : Condition)
      → lib.find_status_condition cs a.type ≡ some a
      → lib.find_status_condition cs r.type ≡ some r
      → lib.find_status_condition cs p.type ≡ some p
      → lib.set_status_condition (lib.set_status_condition (lib.set_status_condition cs a) r) p ≡ cs
  set_found cs a r p fa fr fp =
      ap (λ x. lib.set_status_condition (lib.set_status_condition x r) p) (steady.set_same cs a fa)
      ∙ ap (λ x. lib.set_status_condition x p) (steady.set_same cs r fr)
      ∙ steady.set_same cs p fp

  wanted_idem : (s : RouteStatus) → wanted (wanted s) ≡ wanted s
  unfolding desired_status apply_conditions
  wanted_idem s =
      ap (λ cs. record (wanted s) { conditions = cs })
        (set_found (wanted s).conditions (accepted_condition lib route.meta.generation d)
          (resolved_condition lib route.meta.generation d)
          (programmed_condition lib route.meta.generation d) (finds_accepted s) (finds_resolved s)
          (finds_programmed s))

  wanted_equal :
      (s : RouteStatus)
      → Distinct s.conditions
      → equal_status lib (wanted s) (wanted (wanted s)) ≡ true
  wanted_equal s h =
      ap (equal_status lib (wanted s)) (wanted_idem s)
      ∙ equal_status_refl lib (wanted s) (wanted-EachFound s h)

module _ (lib : Library) (client : StatusClient) (decisions : Assoc NamespacedName Decision)
    (request : NamespacedName) where
  write_status_inv :
      (o : StoredRoute) (d : Decision) {s : RouteStatus}
      → (write_status lib client decisions request o d).0 ≡ some s
      → desired_status lib o.route d o.status ≡ s
  unfolding write_status
  write_status_inv o d h =
      elim (Bool-cases (equal_status lib o.status (desired_status lib o.route d o.status))) [
        | inl e ↦ absurd (cc (simp (e, write_status) at h))
        | inr e ↦ cc (simp (e, write_status) at h)
      ]

  -- A reconcile that patches a status has a decision, and patches what it wants.
  patch_inv :
      (o : StoredRoute) {s : RouteStatus}
      → client.get_route request ≡ ok o
      → (reconcile_status lib client decisions request).0 ≡ some s
      → (o.deleting ≡ false)
        × (d : Decision) × (lookup request decisions ≡ some d)
        × (desired_status lib o.route d o.status ≡ s)
  unfolding reconcile_status
  patch_inv o g h = elim (Bool-cases o.deleting) [
    | inl t ↦ absurd (cc (simp (g, t, reconcile_status) at h))
    | inr t ↦ elim (Option-cases (lookup request decisions)) [
      | inl l ↦ absurd (cc (simp (g, t, l, reconcile_status) at h))
      | inr (d, l) ↦ (t, d, l, write_status_inv o d (simp (g, t, l, reconcile_status) at h))
    ]
  ]

-- With a library of conditions that does what is documented, once a status with at most one
-- condition of each type has been patched, a reconcile that reads the route back with this status,
-- under the same decisions, patches nothing and is done: the event that the patch itself causes
-- sets off no further patch.
pub reconcile_status_settles :
    (lib : Library) (client later : StatusClient) (decisions : Assoc NamespacedName Decision)
    (request : NamespacedName) (o : StoredRoute) (s : RouteStatus)
    → IsSteady lib
    → Distinct o.status.conditions
    → client.get_route request ≡ ok o
    → (reconcile_status lib client decisions request).0 ≡ some s
    → later.get_route request ≡ ok (record o { status = s })
    → reconcile_status lib later decisions request ≡ (none, done)
unfolding reconcile_status write_status
reconcile_status_settles lib client later decisions request o s steady each g h g' =
    let (t, d, l, is) = patch_inv lib client decisions request o g h in
    let same : equal_status lib s (desired_status lib o.route d s) ≡ true =
      ap (λ x. equal_status lib x (desired_status lib o.route d x)) (sym is)
      ∙ wanted_equal lib steady o.route d o.status each in
    simp (g', t, l, same, reconcile_status, write_status) refl
