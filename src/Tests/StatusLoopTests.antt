-- ===== src/Tests/StatusLoopTests.antt =====
-- A status that is patched, and a route that loses its name, with a library that keeps the place of
-- a condition.
use pg_k8s_proxy.Common.{
  ◌≡◌, ◌≢◌, refl, sym, ap, subst, ◌∙◌, inl, inr, ◌⊎◌, Bytes, none, some, List, [], ◌∷◌, codes,
  text_eq, text_eq_iff, ◌++◌, if◌then◌else◌, All, true, false, Bool-cases, lookup, ok,
}
use pg_k8s_proxy.Registry.Resolve.{ApiError, not_found, other}
use pg_k8s_proxy.Registry.Build.{conflict, Decision, Snapshot}
use pg_k8s_proxy.Api.{NamespacedName, name_keys, name_eq}
use pg_k8s_proxy.Controller.Notify.{notify_changed}
use pg_k8s_proxy.Controller.Notify.Covers.{IsHidden, Notified, notify_changed-Notified}
use pg_k8s_proxy.Tests.RegistryTests.{old_route}
use pg_k8s_proxy.Controller.Status.{
  Condition, RouteStatus, Library, desired_status, apply_conditions,
}
use pg_k8s_proxy.Controller.Status.Writing.{
  StoredRoute, StatusClient, done, reconcile_status, write_status, equal_status,
}
use pg_k8s_proxy.Controller.Status.Repeats.{Distinct, IsSteady, reconcile_status_settles}
use pg_k8s_proxy.Tests.StatusTests.{newest, no_status}

-- A library that keeps the place of a condition, as the real one does.
abbrev set_in_place : List Condition → Condition → List Condition
set_in_place [] c = c ∷ []
set_in_place (d ∷ ds) c = if text_eq d.type c.type then c ∷ ds else d ∷ set_in_place ds c

find-set_in_place :
    (cs : List Condition) (c : Condition) (t : Bytes)
    → newest (set_in_place cs c) t ≡ (if text_eq c.type t then some c else newest cs t)
find-set_in_place [] c t = refl
find-set_in_place (d ∷ ds) c t = elim (Bool-cases (text_eq d.type c.type)) [
  | inl e ↦
      let is = (text_eq_iff d.type c.type).0 e in
      elim (Bool-cases (text_eq c.type t)) [
        | inl q ↦ simp (e, q) refl
        | inr q ↦ simp (e, q, ap (λ x. text_eq x t) is ∙ q) refl
      ]
  | inr e ↦ elim (Bool-cases (text_eq d.type t)) [
    | inr q ↦ simp (e, q) (find-set_in_place ds c t)
    | inl q ↦ elim (Bool-cases (text_eq c.type t)) [
      | inr k ↦ simp (e, q, k) refl
      | inl k ↦
          let same : d.type ≡ c.type =
            (text_eq_iff d.type t).0 q ∙ sym ((text_eq_iff c.type t).0 k) in
          absurd (cc (e, (text_eq_iff d.type c.type).1 same))
    ]
  ]
]

set_in_place_same :
    (cs : List Condition) (c : Condition) → newest cs c.type ≡ some c → set_in_place cs c ≡ cs
set_in_place_same [] c h = absurd (cc h)
set_in_place_same (d ∷ ds) c h = elim (Bool-cases (text_eq d.type c.type)) [
  | inl e ↦ let is : d ≡ c = cc (simp e at h) in simp e (ap (λ x. x ∷ ds) (sym is))
  | inr e ↦ simp e (ap (◌∷◌ d) (set_in_place_same ds c (simp e at h)))
]

set_in_place_other :
    (t : Bytes) (cs : List Condition) (c : Condition)
    → text_eq t c.type ≡ false
    → All (λ d. text_eq t d.type ≡ false) cs
    → All (λ d. text_eq t d.type ≡ false) (set_in_place cs c)
set_in_place_other t [] c h a = (h, tt)
set_in_place_other t (d ∷ ds) c h (e, a) = elim (Bool-cases (text_eq d.type c.type)) [
  | inl q ↦ simp q (h, a)
  | inr q ↦ simp q (e, set_in_place_other t ds c h a)
]

set_in_place-Distinct :
    (cs : List Condition) (c : Condition) → Distinct cs → Distinct (set_in_place cs c)
set_in_place-Distinct [] c h = (tt, tt)
set_in_place-Distinct (d ∷ ds) c (a, h) = elim (Bool-cases (text_eq d.type c.type)) [
  | inl q ↦
      simp q
        (subst (λ t. All (λ x. text_eq t x.type ≡ false) ds) ((text_eq_iff d.type c.type).0 q) a, h)
  | inr q ↦ simp q (set_in_place_other d.type ds c q a, set_in_place-Distinct ds c h)
]

newest_beyond :
    (d : Condition) (cs ys : List Condition)
    → All (λ y. text_eq d.type y.type ≡ false) ys
    → All (λ y. newest cs y.type ≡ some y) ys
    → All (λ y. newest (d ∷ cs) y.type ≡ some y) ys
newest_beyond d cs [] a h = tt
newest_beyond d cs (y ∷ ys) (e, a) (f, h) = (rw e f, newest_beyond d cs ys a h)

newest-Distinct : (cs : List Condition) → Distinct cs → All (λ c. newest cs c.type ≡ some c) cs
newest-Distinct [] h = tt
newest-Distinct (d ∷ ds) (a, h) =
    (rw ((text_eq_iff d.type d.type).1 refl) refl, newest_beyond d ds ds a (newest-Distinct ds h))

-- The texts of the API's errors, roughly.
abbrev text_of_api : ApiError → Bytes
text_of_api not_found = codes "not found"
text_of_api (other message) = message
text_of_api _ = codes "the object has been modified"

abbrev steady_library : Library
steady_library = record {
  set_status_condition = set_in_place;
  find_status_condition = newest;
  quote = λ s. codes "\"" ++ (s ++ codes "\"");
  api_text = text_of_api;
}

steady_library-IsSteady : IsSteady steady_library
steady_library-IsSteady = record {
  lawful = record { find-set = find-set_in_place };
  set_same = set_in_place_same;
  set-Distinct = set_in_place-Distinct;
  find-Distinct = newest-Distinct;
}

abbrev old_key : NamespacedName
old_key = record { namespace = codes "apps"; name = codes "old" }

abbrev lost : Decision
lost = conflict (codes "orders") (record { namespace = codes "apps"; name = codes "new" })

abbrev resolved_to : Bytes → Decision
resolved_to endpoint = record {
  database = codes "orders";
  accepted = true;
  conflicts_with = record { namespace = []; name = [] };
  endpoint = endpoint;
  resolve_err = none;
}

abbrev stored_with : RouteStatus → StoredRoute
stored_with s = record { route = old_route; status = s; deleting = false }

abbrev client_with : RouteStatus → StatusClient
client_with s = record { get_route = λ _. ok (stored_with s); patch_status = λ _ _. none }

abbrev wanted_lost : RouteStatus
wanted_lost = desired_status steady_library old_route lost no_status

patches_lost :
    (reconcile_status steady_library (client_with no_status) ((old_key, lost) ∷ []) old_key).0
    ≡ some wanted_lost
unfolding reconcile_status write_status equal_status lookup name_eq text_eq desired_status
    apply_conditions
patches_lost = refl

reconcile_status_settles_example :
    reconcile_status steady_library (client_with wanted_lost) ((old_key, lost) ∷ []) old_key
    ≡ (none, done)
reconcile_status_settles_example =
    reconcile_status_settles steady_library (client_with no_status) (client_with wanted_lost)
      ((old_key, lost) ∷ []) old_key (stored_with no_status) wanted_lost steady_library-IsSteady tt
      refl patches_lost refl

-- The route loses its name to another.
abbrev before_loss : Snapshot
before_loss = record { table = []; decisions = (old_key, resolved_to (codes "old:5432")) ∷ [] }

abbrev after_loss : Snapshot
after_loss = record { table = []; decisions = (old_key, lost) ∷ [] }

loses :
    desired_status steady_library old_route (resolved_to (codes "old:5432")) no_status
    ≢ desired_status steady_library old_route lost no_status
unfolding desired_status apply_conditions
loses h = absurd (cc (ap (λ s. s.endpoint) h))

loss_found :
    (lookup old_key after_loss.decisions ≡ some lost)
    × (lookup old_key before_loss.decisions ≡ some (resolved_to (codes "old:5432")))
unfolding lookup name_eq text_eq
loss_found = (refl, refl)

notify_changed-Notified_example :
    Notified old_key (notify_changed steady_library (some (λ _. true)) before_loss after_loss)
    ⊎ ((before : Decision) × (lookup old_key before_loss.decisions ≡ some before)
        × IsHidden steady_library before lost)
notify_changed-Notified_example =
    notify_changed-Notified steady_library (λ _. true) before_loss after_loss old_key old_route
      no_status lost loss_found.0 refl (inr (resolved_to (codes "old:5432"), loss_found.1, loses))
