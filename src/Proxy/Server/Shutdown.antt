-- ===== src/Proxy/Server/Shutdown.antt =====
-- The way to the return of `Start` from a server that drains, if every session ends.
use pg_k8s_proxy.Common.{
  ℕ, zero, suc, ◌≤◌, ◌<◌, ◌≡◌, refl, ◌∙◌, Option, Bool, ◌==◌, ◌⊎◌, inl, inr, sum, sum_inv,
  Bool-cases, arith,
}
use pg_k8s_proxy.Proxy.Server.{
  Server, Phase, absent, accepted, tracked, refused, serving, released, untracked, finished,
  draining, closing, Step, Reach, later, returns, at_phase, admit, end_session, leave, untrack,
  finish, track, drained, closes, tracks, admits, ends, refuses, leaves, finishes,
}
use pg_k8s_proxy.Proxy.Server.Books.{runs, IsBooked, Moves, Moves-sum}
use pg_k8s_proxy.Proxy.Server.Moves.{
  tracks-Moves, leaves-Moves, finishes-Moves, ends-Moves, admits-Moves, reach-IsBooked,
}
use pg_k8s_proxy.Proxy.Server.Draining.{acquire_slot-main, release_slot-main}

-- How many steps a goroutine still has to make, and all of them together.
abbrev rank : Phase → ℕ
rank accepted = 5
rank tracked = 4
rank refused = 3
rank serving = 3
rank released = 2
rank untracked = 1
rank _ = 0

abbrev pub remaining : Server → ℕ
remaining s = sum rank s.next s.phase

-- The steps of the sessions' goroutines, and no others.
pub data Winds (s : Server) : Server → Type 0 where
  tracking : (i : ℕ) → s.phase i ≡ accepted → Winds s (at_phase i tracked (track i s))
  admitting : (i : ℕ) → s.phase i ≡ tracked → Winds s (admit i s)
  ending : (i : ℕ) → s.phase i ≡ serving → Winds s (end_session i s)
  refusing : (i : ℕ) → s.phase i ≡ refused → Winds s (leave i s)
  leaving : (i : ℕ) → s.phase i ≡ released → Winds s (leave i s)
  finishing : (i : ℕ) → s.phase i ≡ untracked → Winds s (finish i s)

Winds-Step : {s t : Server} → Winds s t → Step s t
Winds-Step (tracking i h) = tracks i h
Winds-Step (admitting i h) = admits i h
Winds-Step (ending i h) = ends i h
Winds-Step (refusing i h) = refuses i h
Winds-Step (leaving i h) = leaves i h
Winds-Step (finishing i h) = finishes i h

-- At most so many of them.
pub data Run : Server → ℕ → Server → Type 0 where
  done : {s : Server} {n : ℕ} → Run s n s
  then_wind : {s t u : Server} {n : ℕ} → Winds s t → Run t n u → Run s (suc n) u

-- One that brings a goroutine nearer to its end and leaves that of `Start` where it is.
abbrev Advances : Server → Type 0
Advances s = (t : Server) × Winds s t × (remaining t < remaining s) × (t.main ≡ s.main)

Moves-down :
    {i : ℕ} {p q : Phase} {s t : Server}
    → Moves i p q s t
    → IsBooked s
    → rank q < rank p
    → remaining t < remaining s
Moves-down {i} {p} {q} {s} {t} m b h = omega (arith, Moves-sum rank m b, h)

module _ (s : Server) (b : IsBooked s) (i : ℕ) where
  by_phase : (p : Phase) → s.phase i ≡ p → 0 < runs p → Advances s
  unfolding leave untrack finish track admit end_session
  by_phase absent h r = absurd (omega (arith, r))
  by_phase finished h r = absurd (omega (arith, r))
  by_phase accepted h r = (_, tracking i h, Moves-down (tracks-Moves i s h b) b (omega arith), refl)
  by_phase tracked h r =
      (_, admitting i h, Moves-down (admits-Moves i s h b) b (ground arith), acquire_slot-main s)
  by_phase serving h r =
      (_, ending i h, Moves-down (ends-Moves i s h b) b (omega arith), release_slot-main s)
  by_phase refused h r =
      (_, refusing i h, Moves-down (leaves-Moves i s refused h refl refl b) b (omega arith), refl)
  by_phase released h r =
      (_, leaving i h, Moves-down (leaves-Moves i s released h refl refl b) b (omega arith), refl)
  by_phase untracked h r =
      (_, finishing i h, Moves-down (finishes-Moves i s h b) b (omega arith), refl)

advances : (s : Server) → IsBooked s → 0 < s.sessions → Advances s
advances s b h =
    let (i, below, here) = sum_inv runs s.next s.phase (omega (arith, b.sessions_are, h)) in
    by_phase s b i (s.phase i) refl here

abbrev pub IsDraining : Server → Bool → Type 0
IsDraining s failed = (s.main ≡ draining failed) ⊎ (s.main ≡ closing failed)

-- No goroutine of a session is left, and the next step is the return of `Start`.
pub record Returns (failed : Bool) (s : Server) : Type 0 where
  pub alone : s.sessions ≡ 0
  pub last : Step s (returns failed s)

last_step : (s : Server) (failed : Bool) → IsDraining s failed → s.sessions ≡ 0 → Returns failed s
last_step s failed (inl d) z = record { alone = z; last = drained failed d z }
last_step s failed (inr d) z = record { alone = z; last = closes failed d z }

same-IsDraining :
    (s t : Server) (failed : Bool) → t.main ≡ s.main → IsDraining s failed → IsDraining t failed
same-IsDraining s t failed m (inl d) = inl (m ∙ d)
same-IsDraining s t failed m (inr d) = inr (m ∙ d)

drain-Run :
    (fuel : ℕ) {capacity : Option ℕ} (s : Server) (failed : Bool)
    → Reach capacity s
    → IsDraining s failed
    → remaining s ≤ fuel
    → (t : Server) × Run s fuel t × (t.main ≡ s.main) × Returns failed t
drain-Run zero s failed r d h = elim (Bool-cases (s.sessions == 0)) [
  | inl z ↦ (s, done, refl, last_step s failed d (ground arith))
  | inr z ↦
      let (t, st, less, m) = advances s (reach-IsBooked r) (ground arith) in
      absurd (omega (arith, less, h))
]
drain-Run (suc fuel) s failed r d h = elim (Bool-cases (s.sessions == 0)) [
  | inl z ↦ (s, done, refl, last_step s failed d (ground arith))
  | inr z ↦
      let (t, st, less, m) = advances s (reach-IsBooked r) (ground arith) in
      let (u, run, e, over) =
        drain-Run fuel t failed (later r (Winds-Step st)) (same-IsDraining s t failed m d)
          (omega (arith, less, h)) in
      (u, then_wind st run, e ∙ m, over)
]

-- A server that drains can always finish: at most `remaining` steps of the sessions' goroutines, in
-- which each session ends in its turn, and no step of anything else, neither the end of the grace
-- period nor a new connection, lead to where `Start` is as it was and can take its last step, to
-- its return with the error that its loop ended with.
pub drain-Returns :
    {capacity : Option ℕ} (s : Server) (failed : Bool)
    → Reach capacity s
    → IsDraining s failed
    → (t : Server) × Run s (remaining s) t × (t.main ≡ s.main) × Returns failed t
drain-Returns s failed r d = drain-Run (remaining s) s failed r d (omega arith)
