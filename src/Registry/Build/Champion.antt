-- ===== src/Registry/Build/Champion.antt =====
-- The winner of a database name among all that claim it.
use pg_k8s_proxy.Common.{
  ◌≡◌, ◌≢◌, refl, sym, ap, ◌∙◌, subst, text_eq_iff, Bytes, none, some, List, [], ◌∷◌, true, false,
  All, ◌⊎◌, inl, inr, Bool-cases, Option-cases,
}
use pg_k8s_proxy.Api.{PostgresRoute, key_of, effective_database}
use pg_k8s_proxy.Registry.Build.{less}
use pg_k8s_proxy.Registry.Order.{less_irrefl, less-asymm, less-neg_trans}
use pg_k8s_proxy.Registry.Build.Winners.{claims, champion}
use pg_k8s_proxy.Registry.Build.Rounds.{In, here, there, All-In, HaveDistinctNames}

-- The route is one of the list that claims the name, and no other claim precedes it.
pub record Leads (database : Bytes) (routes : List PostgresRoute) (w : PostgresRoute) : Type 0 where
  pub listed : In w routes
  pub claiming : claims database w ≡ true
  pub first : All (λ s. (claims database s ≡ false) ⊎ (less s w ≡ false)) routes

abbrev Unpreceded : Bytes → PostgresRoute → List PostgresRoute → Type 0
Unpreceded database w = All (λ s. (claims database s ≡ false) ⊎ (less s w ≡ false))

champion-none :
    (database : Bytes) (w : PostgresRoute) (rs : List PostgresRoute)
    → champion database rs ≡ none
    → Unpreceded database w rs
unfolding champion
champion-none database w [] h = tt
champion-none database w (r ∷ rs) h = elim (Bool-cases (claims database r)) [
  | inl c ↦ absurd (cc (rw (c, champion) at h))
  | inr c ↦ (inl c, champion-none database w rs (rw (c, champion) at h))
]

further :
    (database : Bytes) (r s : PostgresRoute) (rs : List PostgresRoute)
    → less s r ≡ false
    → Unpreceded database s rs
    → Unpreceded database r rs
further database r s [] h t = tt
further database r s (x ∷ rs) h (inl c, t) = (inl c, further database r s rs h t)
further database r s (x ∷ rs) h (inr l, t) =
    (inr (less-neg_trans r s x h l), further database r s rs h t)

pub champion-Leads :
    (database : Bytes) (rs : List PostgresRoute) {w : PostgresRoute}
    → champion database rs ≡ some w
    → Leads database rs w
unfolding champion
champion-Leads database [] h = absurd (cc h)
champion-Leads database (r ∷ rs) {w} h = elim (Bool-cases (claims database r)) [
  | inr c ↦
      let l = champion-Leads database rs (rw (c, champion) at h) in
      record { listed = there l.listed; claiming = l.claiming; first = (inl c, l.first) }
  | inl c ↦ elim (Option-cases (champion database rs)) [
    | inl n ↦
        let is : r ≡ w = cc (rw (c, n, champion) at h) in
        subst (Leads database (r ∷ rs)) is (record {
          listed = here refl;
          claiming = c;
          first = (inr (less_irrefl r), champion-none database r rs n);
        })
    | inr (s, n) ↦
        let l = champion-Leads database rs n in
        elim (Bool-cases (less s r)) [
          | inl p ↦
              let is : s ≡ w = cc (rw (c, n, champion) at h, p) in
              subst (Leads database (r ∷ rs)) is (record {
                listed = there l.listed;
                claiming = l.claiming;
                first = (inr (less-asymm s r p), l.first);
              })
          | inr p ↦
              let is : r ≡ w = cc (rw (c, n, champion) at h, p) in
              subst (Leads database (r ∷ rs)) is (record {
                listed = here refl;
                claiming = c;
                first = (inr (less_irrefl r), further database r s rs p l.first);
              })
        ]
  ]
]

claims_own : (x r : PostgresRoute) → r ≡ x → claims (effective_database r) x ≡ true
claims_own x r e =
    (text_eq_iff (effective_database x) (effective_database r)).1 (ap effective_database (sym e))

-- A route of the list has a winner of its name.
pub champion-listed :
    (rs : List PostgresRoute) {r : PostgresRoute}
    → In r rs
    → champion (effective_database r) rs ≢ none
unfolding champion
champion-listed [] i = elim i [ ]
champion-listed (x ∷ rs) {r} (here e) = λ h. absurd (cc (rw (claims_own x r e, champion) at h))
champion-listed (x ∷ rs) {r} (there i) = λ h. elim (Bool-cases (claims (effective_database r) x)) [
  | inl c ↦ absurd (cc (rw (c, champion) at h))
  | inr c ↦ champion-listed rs i (rw (c, champion) at h)
]

-- Names tell the routes of a list apart.
pub same_of_keys :
    (rs : List PostgresRoute) {a b : PostgresRoute}
    → HaveDistinctNames rs
    → In a rs
    → In b rs
    → key_of a ≡ key_of b
    → a ≡ b
same_of_keys [] d i j e = elim i [ ]
same_of_keys (x ∷ rs) d (here p) (here q) e = p ∙ sym q
same_of_keys (x ∷ rs) {a} {b} d (here p) (there j) e =
    absurd (All-In (λ s. key_of s ≢ key_of x) d.0 j (sym e ∙ ap key_of p))
same_of_keys (x ∷ rs) {a} {b} d (there i) (here q) e =
    absurd (All-In (λ s. key_of s ≢ key_of x) d.0 i (e ∙ ap key_of q))
same_of_keys (x ∷ rs) d (there i) (there j) e = same_of_keys rs d.1 i j e

-- No other route of the list claims the name.
abbrev pub IsUnrivalled : Bytes → PostgresRoute → List PostgresRoute → Type 0
IsUnrivalled database r = All (λ s. (claims database s ≡ false) ⊎ (s ≡ r))

pub unrivalled_leads :
    (routes : List PostgresRoute) (r : PostgresRoute)
    → In r routes
    → IsUnrivalled (effective_database r) r routes
    → champion (effective_database r) routes ≡ some r
unrivalled_leads routes r listed alone =
    elim (Option-cases (champion (effective_database r) routes)) [
      | inl n ↦ absurd (champion-listed routes listed n)
      | inr (w, c) ↦
          let leads = champion-Leads (effective_database r) routes c in
          elim (All-In (λ s. (claims (effective_database r) s ≡ false) ⊎ (s ≡ r)) alone
            leads.listed) [
              | inl no_claim ↦ absurd (cc (no_claim, leads.claiming))
              | inr is ↦ c ∙ ap some is
            ]
    ]
