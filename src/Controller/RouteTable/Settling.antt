-- ===== src/Controller/RouteTable/Settling.antt =====
-- The steps of the table builder: what is owed while the snapshot is old, and a bound of the work.
use pg_k8s_proxy.Common.{
  ℕ, zero, suc, ◌+◌, ◌*◌, ◌≤◌, ◌<◌, ◌≡◌, refl, ap, ◌∙◌, Bytes, Bool, true, false, ◌⊎◌, inl, inr,
  Bool-cases, arith,
}
use pg_k8s_proxy.Controller.RouteTable.{
  Cluster, Builder, Loop, selecting, rebuilding, change, schedule, on_trigger, on_timer, publish,
  give_up, snapshot_for, Work, deliver, take_trigger, fire, finish, finish_mixed, Step, works,
  changes, fails, Reach, start, step,
}

-- A rebuild is on its way, or the latest one failed.
abbrev Owes : Builder → Type 0
Owes b =
    (0 < b.undelivered)
    ⊎ (b.trigger ≡ true)
    ⊎ (b.pending ≡ true)
    ⊎ (b.loop ≡ rebuilding true)
    ⊎ (b.failed ≡ true)

abbrev Noticed : Builder → Type 0
Noticed b = (0 < b.undelivered) ⊎ (b.trigger ≡ true)

Noticed-Owes : (b : Builder) → Noticed b → Owes b
Noticed-Owes b n = ground arith

module _ (cluster_domain : Bytes) where
  record Tracks (b : Builder) : Type 0 where
    covered : (b.store ≡ snapshot_for cluster_domain b.cluster) ⊎ Owes b
    mixed : b.loop ≡ rebuilding false → Noticed b

  work-Tracks : {b b' : Builder} → Tracks b → Work cluster_domain b b' → Tracks b'
  unfolding schedule on_trigger on_timer publish
  work-Tracks t (deliver left h) = record { covered = inr (inr (inl refl)); mixed = λ _. inr refl }
  work-Tracks {b} t (take_trigger h k) = record {
    covered = inr (inr (inr (inl (ground arith))));
    mixed = λ m. absurd (cc (h, m));
  }
  work-Tracks t (fire h k) = record {
    covered = inr (inr (inr (inr (inl refl))));
    mixed = λ m. absurd (cc m);
  }
  work-Tracks t (finish h) = record { covered = inl refl; mixed = λ m. absurd (cc m) }
  work-Tracks {b} t (finish_mixed snapshot h) = record {
    covered = elim (t.mixed h) [ inl u ↦ inr (inl u) | inr u ↦ inr (inr (inl u)) ];
    mixed = λ m. absurd (cc m);
  }

  Step-Tracks : {b b' : Builder} → Tracks b → Step cluster_domain b b' → Tracks b'
  unfolding change give_up
  Step-Tracks t (works w) = work-Tracks t w
  Step-Tracks t (changes cluster) = record {
    covered = inr (inl (omega arith));
    mixed = λ _. inl (omega arith);
  }
  Step-Tracks t (fails clean h) = record {
    covered = inr (inr (inr (inr (inr refl))));
    mixed = λ m. absurd (cc m);
  }

  reach-Tracks : {cluster : Cluster} {b : Builder} → Reach cluster_domain cluster b → Tracks b
  reach-Tracks (start owed) = record {
    covered = inr (inr (inr (inr (inl refl))));
    mixed = λ m. absurd (cc m);
  }
  reach-Tracks (step r s) = Step-Tracks (reach-Tracks r) s

-- Nothing is left to do: no handler to call, nothing in the channel, no timer, no rebuild.
pub record IsQuiet (b : Builder) : Type 0 where
  pub delivered : b.undelivered ≡ 0
  pub taken : b.trigger ≡ false
  pub unset : b.pending ≡ false
  pub at_select : b.loop ≡ selecting

-- However changes, handlers, timers, rebuilds and failures are interleaved: if nothing is left to
-- do and the latest rebuild did not fail, then the store has the snapshot that `Build` makes of the
-- cluster as it is now.
pub quiet_up_to_date :
    (cluster_domain : Bytes) {cluster : Cluster} {b : Builder}
    → Reach cluster_domain cluster b
    → IsQuiet b
    → b.failed ≡ false
    → b.store ≡ snapshot_for cluster_domain b.cluster
quiet_up_to_date cluster_domain {cluster} {b} r q f =
    elim ((reach-Tracks cluster_domain r).covered) [
      | inl e ↦ e
      | inr (inl u) ↦ absurd (omega (arith, u, q.delivered))
      | inr (inr (inl u)) ↦ absurd (cc (u, q.taken))
      | inr (inr (inr (inl u))) ↦ absurd (cc (u, q.unset))
      | inr (inr (inr (inr (inl u)))) ↦ absurd (cc (u, q.at_select))
      | inr (inr (inr (inr (inr u)))) ↦ absurd (cc (u, f))
    ]

abbrev bit : Bool → ℕ
bit true = 1
bit false = 0

abbrev busy : Loop → ℕ
busy selecting = 0
busy (rebuilding _) = 1

-- An upper bound of the steps to come.
abbrev pub remaining : Builder → ℕ
remaining b = b.undelivered * 4 + bit b.trigger * 3 + bit b.pending * 2 + busy b.loop

-- At most so many steps of the loop and the handlers.
pub data Run (cluster_domain : Bytes) : Builder → ℕ → Builder → Type 0 where
  done : {b : Builder} {n : ℕ} → Run cluster_domain b n b
  work_then :
      {b b₁ b₂ : Builder} {n : ℕ}
      → Work cluster_domain b b₁
      → Run cluster_domain b₁ n b₂
      → Run cluster_domain b (suc n) b₂

ℕ-cases : (n : ℕ) → (n ≡ 0) ⊎ ((m : ℕ) × (n ≡ suc m))
ℕ-cases zero = inl refl
ℕ-cases (suc m) = inr (m, refl)

Loop-cases : (l : Loop) → (l ≡ selecting) ⊎ (l ≡ rebuilding true) ⊎ (l ≡ rebuilding false)
Loop-cases selecting = inl refl
Loop-cases (rebuilding true) = inr (inl refl)
Loop-cases (rebuilding false) = inr (inr refl)

-- A step that brings the loop nearer to rest.
abbrev Advances : Bytes → Builder → Type 0
Advances cluster_domain b =
    (b' : Builder) × Work cluster_domain b b'
    × (remaining b' < remaining b)
    × (b'.cluster ≡ b.cluster)
    × (b.failed ≡ false → b'.failed ≡ false)

module _ (cluster_domain : Bytes) where
  deliver-Advances : (b : Builder) (left : ℕ) → b.undelivered ≡ suc left → Advances cluster_domain b
  unfolding schedule
  deliver-Advances b left u = (_, deliver left u, ground arith, refl, λ f. f)

  take-Advances : (b : Builder) → b.loop ≡ selecting → b.trigger ≡ true → Advances cluster_domain b
  unfolding on_trigger
  take-Advances b l t = (_, take_trigger l t, ground arith, refl, λ f. f)

  fire-Advances : (b : Builder) → b.loop ≡ selecting → b.pending ≡ true → Advances cluster_domain b
  unfolding on_timer
  fire-Advances b l p = (_, fire l p, ground arith, refl, λ f. f)

  finish-Advances : (b : Builder) → b.loop ≡ rebuilding true → Advances cluster_domain b
  unfolding publish
  finish-Advances b l = (_, finish l, ground arith, refl, λ f. refl)

  mixed-Advances : (b : Builder) → b.loop ≡ rebuilding false → Advances cluster_domain b
  unfolding publish
  mixed-Advances b l = (_, finish_mixed b.store l, ground arith, refl, λ f. refl)

  select-Advances :
      (b : Builder) → b.undelivered ≡ 0 → b.loop ≡ selecting → IsQuiet b ⊎ Advances cluster_domain b
  select-Advances b u l = elim (Bool-cases b.trigger) [
    | inl t ↦ inr (take-Advances b l t)
    | inr t ↦ elim (Bool-cases b.pending) [
      | inl p ↦ inr (fire-Advances b l p)
      | inr p ↦ inl (record { delivered = u; taken = t; unset = p; at_select = l })
    ]
  ]

  advances : (b : Builder) → IsQuiet b ⊎ Advances cluster_domain b
  advances b = elim (ℕ-cases b.undelivered) [
    | inr (left, u) ↦ inr (deliver-Advances b left u)
    | inl u ↦ elim (Loop-cases b.loop) [
      | inl l ↦ select-Advances b u l
      | inr (inl l) ↦ inr (finish-Advances b l)
      | inr (inr l) ↦ inr (mixed-Advances b l)
    ]
  ]

  -- Enough fuel for the rest of the work brings the loop to rest.
  Run-on :
      (fuel : ℕ) (b : Builder)
      → remaining b ≤ fuel
      → (b' : Builder) × Run cluster_domain b fuel b'
        × IsQuiet b'
        × (b'.cluster ≡ b.cluster)
        × (b.failed ≡ false → b'.failed ≡ false)
  Run-on zero b h = elim (advances b) [
    | inl q ↦ (b, done, q, refl, λ f. f)
    | inr (b₁, w, less, c, f) ↦ absurd (omega (arith, h, less))
  ]
  Run-on (suc fuel) b h = elim (advances b) [
    | inl q ↦ (b, done, q, refl, λ f. f)
    | inr (b₁, w, less, c, f) ↦
        let (b', run, q, c', f') = Run-on fuel b₁ (omega (arith, h, less)) in
        (b', work_then w run, q, c' ∙ c, λ e. f' (f e))
  ]

  run-Reach :
      {cluster : Cluster} {b b' : Builder} {n : ℕ}
      → Reach cluster_domain cluster b
      → Run cluster_domain b n b'
      → Reach cluster_domain cluster b'
  run-Reach r done = r
  run-Reach r (work_then w run) = run-Reach (step r (works w)) run

-- While the cluster does not change and no rebuild fails, every step of the loop or of a handler
-- lowers the bound, so there is no endless run of them in any order.
pub work-remaining :
    (cluster_domain : Bytes) {b b' : Builder}
    → Work cluster_domain b b'
    → remaining b' < remaining b
unfolding schedule on_trigger on_timer publish
work-remaining cluster_domain (deliver left u) = ground arith
work-remaining cluster_domain (take_trigger l t) = ground arith
work-remaining cluster_domain (fire l p) = ground arith
work-remaining cluster_domain (finish l) = ground arith
work-remaining cluster_domain (finish_mixed snapshot l) = ground arith

-- From every state that can be reached, unless its latest rebuild failed, there is a run of at most
-- `remaining` steps of the loop and of the handlers, with no further change, to a state where
-- nothing is left to do and the store has the snapshot of the cluster.
pub settles :
    (cluster_domain : Bytes) {cluster : Cluster} (b : Builder)
    → Reach cluster_domain cluster b
    → b.failed ≡ false
    → (b' : Builder) × Run cluster_domain b (remaining b) b'
      × IsQuiet b'
      × (b'.store ≡ snapshot_for cluster_domain b.cluster)
settles cluster_domain b r f =
    let (b', run, q, c, f') = Run-on cluster_domain (remaining b) b (omega arith) in
    (
      b',
      run,
      q,
      quiet_up_to_date cluster_domain (run-Reach cluster_domain r run) q (f' f)
          ∙ ap (snapshot_for cluster_domain) c,
    )
