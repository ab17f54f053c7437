-- ===== src/Proxy/Server/Books.antt =====
-- What the counters and the map of the server record of its goroutines.
use pg_k8s_proxy.Common.{
  ℕ, ◌+◌, ◌≤◌, ◌<◌, ◌≡◌, ◌≢◌, refl, sym, ap, ap₂, subst, ◌∙◌, Option, none, some, Bool, true, false,
  ltb, ◌==◌, ==_iff, if◌then◌else◌, update, sum, sum-update, Bool-cases, Option-cases, inl, inr,
  arith,
}
use pg_k8s_proxy.Proxy.Server.{Server, Phase, absent, tracked, refused, serving, released, finished}

abbrev pub is_tracked : Phase → Bool
is_tracked tracked = true
is_tracked refused = true
is_tracked serving = true
is_tracked released = true
is_tracked _ = false

-- Whether a goroutine in this phase is in `handle`, and whether it is still to call Done.
abbrev pub holds : Phase → ℕ
holds serving = 1
holds _ = 0

abbrev pub runs : Phase → ℕ
runs absent = 0
runs finished = 0
runs _ = 1

pub runs_tracked : (p : Phase) → is_tracked p ≡ true → runs p ≡ 1
runs_tracked p h = ground arith

-- How many sessions are in `handle`.
abbrev pub in_handle : Server → ℕ
in_handle s = sum holds s.next s.phase

abbrev pub expected_slots : Server → Option ℕ → ℕ
expected_slots s none = 0
expected_slots s (some n) = in_handle s

pub record IsBooked (s : Server) : Type 0 where
  pub beyond : (i : ℕ) → s.next ≤ i → s.phase i ≡ absent
  pub opened : (i : ℕ) → i < s.next → s.phase i ≢ absent
  pub active_are : (i : ℕ) → s.active i ≡ is_tracked (s.phase i)
  pub slots_are : s.slots ≡ expected_slots s s.capacity
  pub within : (n : ℕ) → s.capacity ≡ some n → s.slots ≤ n
  pub sessions_are : s.sessions ≡ sum runs s.next s.phase
  pub closed_are : (i : ℕ) → s.phase i ≡ finished → s.closed i ≡ true

pub present : (s : Server) → IsBooked s → (i : ℕ) → s.phase i ≢ absent → i < s.next
present s b i h = elim (Bool-cases (ltb i s.next)) [
  | inl l ↦ ground arith
  | inr l ↦ absurd (h (b.beyond i (ground arith)))
]

-- A goroutine that goes on, with the effects that it has on the books.
pub record Moves (i : ℕ) (p q : Phase) (s t : Server) : Type 0 where
  pub from : s.phase i ≡ p
  pub there : p ≢ absent
  pub still_there : q ≢ absent
  pub phases : t.phase ≡ update i q s.phase
  pub same_next : t.next ≡ s.next
  pub same_capacity : t.capacity ≡ s.capacity
  pub actives : (j : ℕ) → t.active j ≡ (if i == j then is_tracked q else s.active j)
  pub slots_move : s.capacity ≢ none → t.slots + holds p ≡ s.slots + holds q
  pub slots_stay : s.capacity ≡ none → t.slots ≡ s.slots
  pub kept_within : (n : ℕ) → s.capacity ≡ some n → t.slots ≤ n
  pub sessions_move : t.sessions + runs p ≡ s.sessions + runs q
  pub closed_kept : (j : ℕ) → s.closed j ≡ true → t.closed j ≡ true
  pub closed_now : q ≡ finished → t.closed i ≡ true

pub Moves-sum :
    (w : Phase → ℕ) {i : ℕ} {p q : Phase} {s t : Server}
    → Moves i p q s t
    → IsBooked s
    → sum w t.next t.phase + w p ≡ sum w s.next s.phase + w q
Moves-sum w {i} {p} {q} {s} m b =
    ap₂ (λ n f. sum w n f + w p) m.same_next m.phases
    ∙ ap (λ x. sum w s.next (update i q s.phase) + w x) (sym m.from)
    ∙ sum-update w s.next i q s.phase (present s b i (λ z. m.there (sym m.from ∙ z)))

pub Moves-IsBooked :
    {i : ℕ} {p q : Phase} {s t : Server} → Moves i p q s t → IsBooked s → IsBooked t
Moves-IsBooked {i} {p} {q} {s} {t} m b = record {
  beyond = λ j h. rw (phase_of j) (ground (arith, b.beyond j, below, m.same_next));
  opened = λ j h z. opened_at j h (sym (phase_of j) ∙ z);
  active_are = λ j. m.actives j ∙ ground (arith, phase_of j, b.active_are j);
  slots_are = elim (Option-cases s.capacity) [
    | inl c ↦ rw (m.same_capacity ∙ c) (m.slots_stay c ∙ b.slots_are ∙ rw c refl)
    | inr (n, c) ↦ rw (m.same_capacity ∙ c) (
        omega (
          arith,
          m.slots_move (λ z. cc),
          b.slots_are ∙ ap (expected_slots s) c,
          Moves-sum holds m b,
        ))
  ];
  within = λ n e. m.kept_within n (sym m.same_capacity ∙ e);
  sessions_are = omega (arith, m.sessions_move, b.sessions_are, Moves-sum runs m b);
  closed_are = λ j h. closed_at j (sym (phase_of j) ∙ h);
}
  where
    below : i < s.next
    below = present s b i (λ z. m.there (sym m.from ∙ z))

    phase_of : (j : ℕ) → t.phase j ≡ update i q s.phase j
    phase_of j = ap (λ (f : ℕ → Phase). f j) m.phases

    opened_at : (j : ℕ) → j < t.next → update i q s.phase j ≢ absent
    opened_at j h z = elim (Bool-cases (i == j)) [
      | inl e ↦ m.still_there (rw e at z)
      | inr e ↦ b.opened j (rw (sym m.same_next) h) (rw e at z)
    ]

    closed_at : (j : ℕ) → update i q s.phase j ≡ finished → t.closed j ≡ true
    closed_at j h = elim (Bool-cases (i == j)) [
      | inl e ↦ subst (λ k. t.closed k ≡ true) ((==_iff i j).0 e) (m.closed_now (rw e at h))
      | inr e ↦ m.closed_kept j (b.closed_are j (rw e at h))
    ]
