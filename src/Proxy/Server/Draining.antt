-- ===== src/Proxy/Server/Draining.antt =====
-- What holds when `Start` returns, and how the sessions that are left come to an end.
use pg_k8s_proxy.Common.{
  ℕ, zero, suc, ◌≤◌, ◌<◌, ◌≡◌, ◌≢◌, refl, sym, ap, ◌∙◌, Option, Bool, true, false, ltb, inl, inr,
  sum, sum-le, Bool-cases, Option-cases, arith,
}
use pg_k8s_proxy.Proxy.Server.{
  Server, Phase, absent, finished, returned, Step, Reach, start, later, acquire_slot, release_slot,
  admit, end_session, leave, untrack, finish, track, on_accept, on_accept_error, close_active,
  cancels, accepts, accept_fails, retries, gives_up, drained, grace_ends, closes, tracks, admits,
  ends, refuses, leaves, finishes,
}
use pg_k8s_proxy.Proxy.Server.Books.{holds, runs, is_tracked, IsBooked}
use pg_k8s_proxy.Proxy.Server.Moves.{reach-IsBooked}

-- What `Start` has reached when it returns.
record IsDone (s : Server) : Type 0 where
  idle : s.sessions ≡ 0
  deaf : s.listening ≡ false

abbrev Ends : Server → Type 0
Ends s = (f : Bool) → s.main ≡ returned f → IsDone s

-- A goroutine that is to go on is one that the WaitGroup counts.
counted : (s : Server) (i : ℕ) → IsBooked s → runs (s.phase i) ≡ 1 → 0 < s.sessions
counted s i b h = elim (Bool-cases (ltb i s.next)) [
  | inl l ↦ omega (arith, b.sessions_are, sum-le runs s.next s.phase i (ground arith), h)
  | inr l ↦ absurd (cc (h, ap runs (b.beyond i (ground arith))))
]

-- So it makes no step once `Start` has returned.
goes-Ends :
    (s t : Server) (i : ℕ) → IsBooked s → runs (s.phase i) ≡ 1 → t.main ≡ s.main → Ends s → Ends t
goes-Ends s t i b r m e f h = absurd (omega (arith, counted s i b r, (e f (sym m ∙ h)).idle))

pub acquire_slot-main : (s : Server) → (acquire_slot s).1.main ≡ s.main
unfolding acquire_slot
acquire_slot-main s = ground arith

pub release_slot-main : (s : Server) → (release_slot s).main ≡ s.main
unfolding release_slot
release_slot-main s = ground arith

step-Ends : {s t : Server} → IsBooked s → Ends s → Step s t → Ends t
unfolding on_accept on_accept_error close_active admit end_session leave untrack finish track
step-Ends {s} b e cancels = λ f h. record { idle = (e f h).idle; deaf = (e f h).deaf }
step-Ends {s} b e (accepts n h) = λ f k. absurd (cc k)
step-Ends {s} b e (accept_fails n t h) = λ f k. absurd (ground arith)
step-Ends {s} b e (retries n h) = λ f k. absurd (cc k)
step-Ends {s} b e (gives_up n h c) = λ f k. absurd (cc k)
step-Ends {s} b e (drained g h z) = λ f k. record { idle = z; deaf = refl }
step-Ends {s} b e (grace_ends g h) = λ f k. absurd (cc k)
step-Ends {s} b e (closes g h z) = λ f k. record { idle = z; deaf = refl }
step-Ends {s} b e (tracks i h) = goes-Ends s _ i b (ap runs h) refl e
step-Ends {s} b e (admits i h) = goes-Ends s (admit i s) i b (ap runs h) (acquire_slot-main s) e
step-Ends {s} b e (ends i h) = goes-Ends s (end_session i s) i b (ap runs h) (release_slot-main s) e
step-Ends {s} b e (refuses i h) = goes-Ends s _ i b (ap runs h) refl e
step-Ends {s} b e (leaves i h) = goes-Ends s _ i b (ap runs h) refl e
step-Ends {s} b e (finishes i h) = goes-Ends s _ i b (ap runs h) refl e

reach-Ends : {capacity : Option ℕ} {s : Server} → Reach capacity s → Ends s
reach-Ends start = λ f h. absurd (cc h)
reach-Ends (later r st) = step-Ends (reach-IsBooked r) (reach-Ends r) st

over : (p : Phase) → p ≢ absent → runs p ≡ 0 → p ≡ finished
over p n r = ground arith

-- Nothing of the server is left.
pub record IsSettled (s : Server) : Type 0 where
  pub deaf : s.listening ≡ false
  pub ended : (i : ℕ) → i < s.next → (s.phase i ≡ finished) × (s.closed i ≡ true)
  pub forgotten : (i : ℕ) → s.active i ≡ false
  pub slots_free : s.slots ≡ 0

settled_at : (s : Server) → IsBooked s → s.sessions ≡ 0 → (i : ℕ) → runs (s.phase i) ≡ 0
settled_at s b z i = elim (Bool-cases (ltb i s.next)) [
  | inl l ↦ omega (arith, b.sessions_are, z, sum-le runs s.next s.phase i (ground arith))
  | inr l ↦ ap runs (b.beyond i (ground arith))
]

idle_untracked : (p : Phase) → runs p ≡ 0 → is_tracked p ≡ false
idle_untracked p h = ground arith

holds-le-runs : (p : Phase) → holds p ≤ runs p
holds-le-runs p = ground arith

sum-holds-le : (n : ℕ) (f : ℕ → Phase) → sum holds n f ≤ sum runs n f
unfolding sum
sum-holds-le zero f = omega arith
sum-holds-le (suc n) f = omega (arith, sum-holds-le n f, holds-le-runs (f n))

-- `Start` returns, whether the loop of Accept failed or not, only when it no longer counts as
-- listening, the goroutine of every connection ever accepted has ended and closed it, no connection
-- is tracked and no slot is held.
pub returned-IsSettled :
    {capacity : Option ℕ} {s : Server} {failed : Bool}
    → Reach capacity s
    → s.main ≡ returned failed
    → IsSettled s
returned-IsSettled {capacity} {s} {failed} r h =
    let b = reach-IsBooked r in
    let d = reach-Ends r failed h in
    let at = λ (i : ℕ). settled_at s b d.idle i in
    record {
      deaf = d.deaf;
      ended = λ i l. let f = over (s.phase i) (b.opened i l) (at i) in (f, b.closed_are i f);
      forgotten = λ i. b.active_are i ∙ idle_untracked (s.phase i) (at i);
      slots_free = elim (Option-cases s.capacity) [
        | inl c ↦ b.slots_are ∙ rw c refl
        | inr (n, c) ↦
            b.slots_are ∙ rw c (omega (arith, sum-holds-le s.next s.phase, b.sessions_are, d.idle))
      ];
    }
