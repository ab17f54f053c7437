-- ===== src/Config/Flags/Wins.antt =====
-- The setting that a flag stands for, behind a command line.
use pg_k8s_proxy.Common.{
  ◌≡◌, refl, sym, ap, ◌∙◌, subst, Bytes, Option, none, some, List, [], ◌∷◌, Bool, true, false, ◌||◌,
  ok, bind-eq-ok, ok_inj, Assoc, lookup, bytes_keys, text_eq, text_eq_iff, All, ◌⊎◌, inl, inr,
  if◌then◌else◌, Bool-cases, Option-cases,
}
use pg_k8s_proxy.Config.{Settings}
use pg_k8s_proxy.Config.Flags.{
  FlagTypes, Setter, text_var, parsed_var, slice_var, bind_flags, is_changed, set_flag, parse_flags,
}

-- Whether the command line has the flag.
abbrev pub mentions : List (Bytes × Bytes) → Bytes → Bool
mentions [] name = false
mentions ((n, text) ∷ args) name = text_eq n name || mentions args name

-- The values that a flag gives a setting, one after the other, from its value on.
unfoldable pub reading {ℓ} :
    {A : Type ℓ}
    → Bytes
    → (Bool → Bytes → A → Option A)
    → Bool
    → A
    → List (Bytes × Bytes)
    → Option A
reading name update seen a [] = some a
reading name update seen a ((n, text) ∷ args) =
    if text_eq n name
    then elim (update seen text a) [ none ↦ none | some a' ↦ reading name update true a' args ]
    else reading name update seen a args

-- `Set` of the flag itself, and `Set` of another.
abbrev pub Writes : {A : Type 0} → (Settings → A) → (Bool → Bytes → A → Option A) → Setter → Type 0
Writes get update set =
    (seen : Bool) (text : Bytes) (c c' : Settings)
    → set seen text c ≡ some c'
    → update seen text (get c) ≡ some (get c')

abbrev pub Leaves : {A : Type 0} → (Settings → A) → Setter → Type 0
Leaves get set =
    (seen : Bool) (text : Bytes) (c c' : Settings) → set seen text c ≡ some c' → get c' ≡ get c

abbrev pub IsOwn :
    {A : Type 0} → Bytes → (Settings → A) → (Bool → Bytes → A → Option A) → Bytes × Setter → Type 0
IsOwn name get update (n, set) =
    ((text_eq n name ≡ true) × Writes get update set) ⊎ ((text_eq n name ≡ false) × Leaves get set)

or_false : (a : Bool) → a ≡ a || false
or_false true = refl
or_false false = refl

or_true : (a : Bool) → a || true ≡ true
or_true true = refl
or_true false = refl

pub some_inj : {A : Type 0} {a b : A} → ◌≡◌ {A = Option A} (some a) (some b) → a ≡ b
some_inj h = cc h

module _ {A : Type 0} (get : Settings → A) where
  pub text_var-Leaves :
      (put : Bytes → Settings → Settings)
      → ((v : Bytes) (c : Settings) → get (put v c) ≡ get c)
      → Leaves get (text_var put)
  text_var-Leaves put same seen text c c' h = ap get (sym (some_inj h)) ∙ same text c

  put_spares :
      {B : Type 0} (o : Option B) (put : B → Settings → Settings)
      → ((v : B) (c : Settings) → get (put v c) ≡ get c)
      → (c : Settings) {c' : Settings} → elim o [ none ↦ none | some v ↦ some (put v c) ] ≡ some c'
      → get c' ≡ get c
  put_spares none put same c h = absurd (cc h)
  put_spares (some v) put same c h = ap get (sym (some_inj h)) ∙ same v c

module _ {A : Type 0} (get : Settings → A) where
  pub parsed_var-Leaves :
      {B : Type 0} (parse : Bytes → Option B) (put : B → Settings → Settings)
      → ((v : B) (c : Settings) → get (put v c) ≡ get c)
      → Leaves get (parsed_var parse put)
  parsed_var-Leaves parse put same seen text c c' h = put_spares get (parse text) put same c h

  pub slice_var-Leaves :
      (t : FlagTypes) (old : Settings → List Bytes) (put : List Bytes → Settings → Settings)
      → ((v : List Bytes) (c : Settings) → get (put v c) ≡ get c)
      → Leaves get (slice_var t old put)
  slice_var-Leaves t old put same seen text c c' h =
      put_spares get (t.set_slice seen text (old c)) put same c h

module _ {A : Type 0} (t : FlagTypes) (name : Bytes) (get : Settings → A)
    (update : Bool → Bytes → A → Option A) where
  lookup-IsOwn :
      (n : Bytes) (flags : Assoc Bytes Setter) {set : Setter}
      → All (IsOwn name get update) flags
      → lookup n flags ≡ some set
      → IsOwn name get update (n, set)
  unfolding lookup
  lookup-IsOwn n [] a h = absurd (cc h)
  lookup-IsOwn n ((j, s) ∷ flags) {set} a h = elim (Bool-cases (text_eq j n)) [
    | inl q ↦
        let is : s ≡ set = some_inj (rw (q, lookup) at h) in
        subst (λ x. IsOwn name get update (x, set)) ((text_eq_iff j n).0 q)
          (subst (λ x. IsOwn name get update (j, x)) is a.0)
    | inr q ↦ lookup-IsOwn n flags a.1 (rw (q, lookup) at h)
  ]

  set_flag_inv :
      (n text : Bytes) (c : Settings) (changed : List Bytes) {s : Settings × List Bytes}
      → set_flag (bind_flags t) n text (c, changed) ≡ ok s
      → (set : Setter) × (lookup n (bind_flags t) ≡ some set)
        × (set (is_changed changed n) text c ≡ some s.0)
        × (s.1 ≡ n ∷ changed)
  unfolding set_flag
  set_flag_inv n text c changed {s} h = elim (Option-cases (lookup n (bind_flags t))) [
    | inl l ↦ absurd (cc (rw (l, set_flag) at h))
    | inr (set, l) ↦ elim (Option-cases (set (is_changed changed n) text c)) [
      | inl r ↦ absurd (cc (rw r at (rw (l, set_flag) at h)))
      | inr (c', r) ↦
          let is : ◌≡◌ {A = Settings × List Bytes} (c', n ∷ changed) s =
            ok_inj (rw r at (rw (l, set_flag) at h)) in
          (set, l, r ∙ ap (λ x. some x.0) is, sym (ap (λ x. x.1) is))
    ]
  ]

  -- One flag of the command line.
  set_flag_reads :
      (n text : Bytes) (c : Settings) (changed : List Bytes) {s : Settings × List Bytes}
      → All (IsOwn name get update) (bind_flags t)
      → set_flag (bind_flags t) n text (c, changed) ≡ ok s
      → ((text_eq n name ≡ true)
          × (update (is_changed changed name) text (get c) ≡ some (get s.0))
          × (s.1 ≡ n ∷ changed))
        ⊎ ((text_eq n name ≡ false) × (get s.0 ≡ get c) × (s.1 ≡ n ∷ changed))
  set_flag_reads n text c changed {s} a h =
      let (set, l, r, is) = set_flag_inv n text c changed h in
      elim (lookup-IsOwn n (bind_flags t) a l) [
        | inl (q, writes) ↦ inl (
          q,
          ap (λ x. update (is_changed changed x) text (get c)) (sym ((text_eq_iff n name).0 q))
              ∙ writes (is_changed changed n) text c s.0 r,
          is,
        )
        | inr (q, leaves) ↦ inr (q, leaves (is_changed changed n) text c s.0 r, is)
      ]

  -- The whole of it.
  pub parse_flags_reads :
      (args : List (Bytes × Bytes)) (c : Settings) (changed : List Bytes)
      {s : Settings × List Bytes}
      → All (IsOwn name get update) (bind_flags t)
      → parse_flags (bind_flags t) args (c, changed) ≡ ok s
      → (reading name update (is_changed changed name) (get c) args ≡ some (get s.0))
        × (is_changed s.1 name ≡ is_changed changed name || mentions args name)
  unfolding parse_flags reading
  parse_flags_reads [] c changed {s} a h =
      let is : ◌≡◌ {A = Settings × List Bytes} (c, changed) s = ok_inj h in
      (
        ap (λ x. some (get x.0)) is,
        ap (λ x. is_changed x.1 name) (sym is) ∙ or_false (is_changed changed name),
      )
  parse_flags_reads ((n, text) ∷ args) c changed {s} a h =
      let (s1, e, rest) =
        bind-eq-ok (set_flag (bind_flags t) n text (c, changed)) (parse_flags (bind_flags t) args)
          h in
      let (read, seen) = parse_flags_reads args s1.0 s1.1 a rest in
      elim (set_flag_reads n text c changed a e) [
        | inl (q, u, is) ↦
            let on : is_changed s1.1 name ≡ true = ap (λ x. is_changed x name) is ∙ rw q refl in
            (
              rw (q, u)
                  (subst (λ b. reading name update b (get s1.0) args ≡ some (get s.0)) on read),
              seen ∙ rw (on, q) (sym (or_true (is_changed changed name))),
            )
        | inr (q, u, is) ↦
            let on : is_changed s1.1 name ≡ is_changed changed name =
              ap (λ x. is_changed x name) is ∙ rw q refl in
            (
              rw q (
                  subst (λ b. reading name update b (get c) args ≡ some (get s.0)) on
                    (subst (λ v. reading name update (is_changed s1.1 name) v args ≡ some (get s.0))
                      u read)),
              seen ∙ rw (on, q) refl,
            )
      ]
