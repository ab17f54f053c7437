-- ===== src/Proxy/Server/Moves.antt =====
-- The steps of the server, each with its effect on the books.
use pg_k8s_proxy.Common.{
  ℕ, suc, ◌+◌, ◌-◌, ◌≤◌, ◌≡◌, ◌≢◌, refl, sym, ap, ◌∙◌, Option, none, some, Bool, true, false, ltb,
  if◌then◌else◌, update, sum, sum-update_above, sum-le, Bool-cases, Option-cases, inl, inr, arith,
}
use pg_k8s_proxy.Proxy.Server.{
  Server, Phase, accepted, tracked, refused, serving, released, untracked, finished, Main,
  accepting, Step, Reach, start, later, at_phase, track, untrack, acquire_slot, release_slot, admit,
  end_session, leave, finish, on_accept, on_accept_error, close_active, listening_server, cancels,
  accepts, accept_fails, retries, gives_up, drained, grace_ends, closes, tracks, admits, ends,
  refuses, leaves, finishes,
}
use pg_k8s_proxy.Proxy.Server.Books.{
  is_tracked, holds, runs, runs_tracked, expected_slots, IsBooked, present, Moves, Moves-IsBooked,
}

module _ (s : Server) where
  release_unlimited : s.capacity ≡ none → release_slot s ≡ s
  unfolding release_slot
  release_unlimited c = simp (c, release_slot) refl

  release_limited :
      (n : ℕ) → s.capacity ≡ some n → release_slot s ≡ record s { slots = s.slots - 1 }
  unfolding release_slot
  release_limited n c = simp (c, release_slot) refl

  pub acquire_unlimited : s.capacity ≡ none → acquire_slot s ≡ (true, s)
  unfolding acquire_slot
  acquire_unlimited c = simp (c, acquire_slot) refl

  pub acquire_limited :
      (n : ℕ)
      → s.capacity ≡ some n
      → acquire_slot s
        ≡ (if ltb s.slots n then (true, record s { slots = suc s.slots }) else (false, s))
  unfolding acquire_slot
  acquire_limited n c = simp (c, acquire_slot) refl

module _ (i : ℕ) (s : Server) where
  pub tracks-Moves :
      s.phase i ≡ accepted
      → IsBooked s
      → Moves i accepted tracked s (at_phase i tracked (track i s))
  unfolding track
  tracks-Moves h b = record {
    from = h;
    there = λ z. cc;
    still_there = λ z. cc;
    phases = refl;
    same_next = refl;
    same_capacity = refl;
    actives = λ j. refl;
    slots_move = λ _. refl;
    slots_stay = λ _. refl;
    kept_within = b.within;
    sessions_move = refl;
    closed_kept = λ j k. k;
    closed_now = λ z. absurd (cc z);
  }

  pub leaves-Moves :
      (p : Phase)
      → s.phase i ≡ p
      → holds p ≡ 0
      → runs p ≡ 1
      → IsBooked s
      → Moves i p untracked s (leave i s)
  unfolding leave untrack
  leaves-Moves p h z r b = record {
    from = h;
    there = λ e. absurd (cc (ap runs e, r));
    still_there = λ z. cc;
    phases = refl;
    same_next = refl;
    same_capacity = refl;
    actives = λ j. refl;
    slots_move = λ _. omega (arith, z);
    slots_stay = λ _. refl;
    kept_within = b.within;
    sessions_move = omega (arith, r);
    closed_kept = λ j k. k;
    closed_now = λ z. absurd (cc z);
  }

  pub finishes-Moves :
      s.phase i ≡ untracked → IsBooked s → Moves i untracked finished s (finish i s)
  unfolding finish
  finishes-Moves h b = record {
    from = h;
    there = λ z. cc;
    still_there = λ z. cc;
    phases = refl;
    same_next = refl;
    same_capacity = refl;
    actives = λ j. ground (arith, b.active_are j, h);
    slots_move = λ _. refl;
    slots_stay = λ _. refl;
    kept_within = b.within;
    sessions_move = omega (
      arith,
      b.sessions_are,
      ap runs h,
      sum-le runs s.next s.phase i (present s b i (λ z. cc (h, z))),
    );
    closed_kept = λ j k. ground arith;
    closed_now = λ _. ground arith;
  }

  -- A goroutine that stays tracked and takes or gives back a slot.
  slots-Moves :
      (p q : Phase) (k : ℕ)
      → s.phase i ≡ p
      → is_tracked p ≡ true
      → is_tracked q ≡ true
      → (s.capacity ≢ none → k + holds p ≡ s.slots + holds q)
      → (s.capacity ≡ none → k ≡ s.slots)
      → ((n : ℕ) → s.capacity ≡ some n → k ≤ n)
      → IsBooked s
      → Moves i p q s (at_phase i q (record s { slots = k }))
  slots-Moves p q k h tp tq move stay fit b = record {
    from = h;
    there = λ z. cc (ap is_tracked z, tp);
    still_there = λ z. cc (ap is_tracked z, tq);
    phases = refl;
    same_next = refl;
    same_capacity = refl;
    actives = λ j. ground (arith, b.active_are j, ap is_tracked h, tp, tq);
    slots_move = move;
    slots_stay = stay;
    kept_within = fit;
    sessions_move = omega (arith, runs_tracked p tp, runs_tracked q tq);
    closed_kept = λ j k. k;
    closed_now = λ z. cc (ap is_tracked z, tq);
  }

  pub ends-Moves : s.phase i ≡ serving → IsBooked s → Moves i serving released s (end_session i s)
  unfolding end_session
  ends-Moves h b = elim (Option-cases s.capacity) [
    | inl c ↦ rw (release_unlimited s c) (
        slots-Moves serving released s.slots h refl refl (λ z. absurd (z c)) (λ _. refl) b.within b)
    | inr (n, c) ↦ rw (release_limited s n c) (
        slots-Moves serving released (s.slots - 1) h refl refl
          (λ _. omega (
            arith,
            b.slots_are ∙ ap (expected_slots s) c,
            ap holds h,
            sum-le holds s.next s.phase i (present s b i (λ z. cc (h, z))),
          ))
          (λ z. cc (z, c)) (λ m e. omega (arith, b.within m e)) b)
  ]

  pub admits-Moves :
      s.phase i ≡ tracked
      → IsBooked s
      → Moves i tracked (if (acquire_slot s).0 then serving else refused) s (admit i s)
  unfolding admit
  admits-Moves h b = elim (Option-cases s.capacity) [
    | inl c ↦
        rw (acquire_unlimited s c) (
          slots-Moves tracked serving s.slots h refl refl (λ z. absurd (z c)) (λ _. refl) b.within
            b)
    | inr (n, c) ↦ elim (Bool-cases (ltb s.slots n)) [
      | inl l ↦ rw (acquire_limited s n c) (
          simp l (
            slots-Moves tracked serving (suc s.slots) h refl refl (λ _. omega arith)
              (λ z. cc (z, c)) (λ m e. ground (arith, sym c ∙ e)) b))
      | inr l ↦ rw (acquire_limited s n c) (
          simp l
            (slots-Moves tracked refused s.slots h refl refl (λ _. refl) (λ _. refl) b.within b))
    ]
  ]

accepts-IsBooked : (s : Server) → IsBooked s → IsBooked (on_accept s)
unfolding on_accept sum
accepts-IsBooked s b = record {
  beyond = λ i h. ground (arith, b.beyond i);
  opened = λ i h z. ground (arith, b.opened i);
  active_are =
      λ i. ground (arith, b.active_are i, b.active_are s.next, b.beyond s.next (omega arith));
  slots_are = elim (Option-cases s.capacity) [
    | inl c ↦ b.slots_are ∙ rw c refl
    | inr (n, c) ↦ b.slots_are ∙ rw c (ground (arith, counted holds))
  ];
  within = b.within;
  sessions_are = ground (arith, b.sessions_are, counted runs);
  closed_are = λ i h. ground (arith, b.closed_are i);
}
  where
    counted : (w : Phase → ℕ) → sum w s.next (update s.next accepted s.phase) ≡ sum w s.next s.phase
    counted w = sum-update_above w s.next s.next accepted s.phase (omega arith)

-- A step of the goroutine of `Start`, which closes connections at most.
main-IsBooked :
    (s : Server) (closed : ℕ → Bool) (main : Main) (cancelled listening : Bool)
    → ((i : ℕ) → s.closed i ≡ true → closed i ≡ true)
    → IsBooked s
    → IsBooked
        (record s { closed = closed; main = main; cancelled = cancelled; listening = listening })
main-IsBooked s closed main cancelled listening kept b = record {
  beyond = b.beyond;
  opened = b.opened;
  active_are = b.active_are;
  slots_are = b.slots_are;
  within = b.within;
  sessions_are = b.sessions_are;
  closed_are = λ i h. kept i (b.closed_are i h);
}

pub step-IsBooked : {s t : Server} → IsBooked s → Step s t → IsBooked t
unfolding on_accept_error close_active
step-IsBooked {s} b cancels = main-IsBooked s s.closed s.main true s.listening (λ i h. h) b
step-IsBooked {s} b (accepts n h) = accepts-IsBooked s b
step-IsBooked {s} b (accept_fails n t h) =
    main-IsBooked s s.closed (on_accept_error t n s).main s.cancelled s.listening (λ i h. h) b
step-IsBooked {s} b (retries n h) =
    main-IsBooked s s.closed (accepting n) s.cancelled s.listening (λ i h. h) b
step-IsBooked {s} b (gives_up n h c) =
    main-IsBooked s s.closed (Main.draining false) s.cancelled s.listening (λ i h. h) b
step-IsBooked {s} b (drained f h e) =
    main-IsBooked s s.closed (Main.returned f) s.cancelled false (λ i h. h) b
step-IsBooked {s} b (grace_ends f h) =
    main-IsBooked s (close_active f s).closed (Main.closing f) s.cancelled s.listening
      (λ i h. ground arith) b
step-IsBooked {s} b (closes f h e) =
    main-IsBooked s s.closed (Main.returned f) s.cancelled false (λ i h. h) b
step-IsBooked {s} b (tracks i h) = Moves-IsBooked (tracks-Moves i s h b) b
step-IsBooked {s} b (admits i h) = Moves-IsBooked (admits-Moves i s h b) b
step-IsBooked {s} b (ends i h) = Moves-IsBooked (ends-Moves i s h b) b
step-IsBooked {s} b (refuses i h) = Moves-IsBooked (leaves-Moves i s refused h refl refl b) b
step-IsBooked {s} b (leaves i h) = Moves-IsBooked (leaves-Moves i s released h refl refl b) b
step-IsBooked {s} b (finishes i h) = Moves-IsBooked (finishes-Moves i s h b) b

start-IsBooked : (capacity : Option ℕ) → IsBooked (listening_server capacity)
unfolding sum
start-IsBooked capacity = record {
  beyond = λ i h. refl;
  opened = λ i h z. absurd (omega (arith, h));
  active_are = λ i. refl;
  slots_are = elim (Option-cases capacity) [ inl c ↦ rw c refl | inr (n, c) ↦ rw c refl ];
  within = λ n e. omega arith;
  sessions_are = refl;
  closed_are = λ i h. absurd (cc h);
}

pub reach-IsBooked : {capacity : Option ℕ} {s : Server} → Reach capacity s → IsBooked s
reach-IsBooked {capacity} start = start-IsBooked capacity
reach-IsBooked (later r st) = step-IsBooked (reach-IsBooked r) st
