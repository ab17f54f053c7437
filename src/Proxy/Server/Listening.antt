-- ===== src/Proxy/Server/Listening.antt =====
-- What `Listening` says of a server.
use pg_k8s_proxy.Common.{
  ℕ, ◌≡◌, ◌≢◌, ◌↔◌, refl, sym, ◌∙◌, Option, Bool, true, false, ltb, ◌⊎◌, inl, inr, Option-cases,
  Bool-cases,
}
use pg_k8s_proxy.Proxy.Server.{
  Server, unstarted, returned, Step, Reach, Life, created, listen_failed, listened, start, later,
  cancels, accepts, accept_fails, retries, gives_up, drained, grace_ends, closes, tracks, admits,
  ends, refuses, leaves, finishes, acquire_slot, release_slot, on_accept, on_accept_error, track,
  untrack, admit, end_session, leave, finish, close_active,
}
use pg_k8s_proxy.Proxy.Server.Draining.{acquire_slot-main, release_slot-main, returned-IsSettled}

acquire_slot-listening : (s : Server) → (acquire_slot s).1.listening ≡ s.listening
unfolding acquire_slot
acquire_slot-listening s = elim (Option-cases s.capacity) [
  | inl c ↦ simp (c, acquire_slot) refl
  | inr (n, c) ↦ elim (Bool-cases (ltb s.slots n)) [
    | inl l ↦ simp (c, l, acquire_slot) refl
    | inr l ↦ simp (c, l, acquire_slot) refl
  ]
]

release_slot-listening : (s : Server) → (release_slot s).listening ≡ s.listening
unfolding release_slot
release_slot-listening s = elim (Option-cases s.capacity) [
  | inl c ↦ simp (c, release_slot) refl
  | inr (n, c) ↦ simp (c, release_slot) refl
]

-- The flag is up until `Start` has returned.
abbrev Hears : Server → Type 0
Hears s = (s.listening ≡ true) ⊎ ((failed : Bool) × (s.main ≡ returned failed))

step-Hears : {s t : Server} → Hears s → Step s t → Hears t
unfolding on_accept on_accept_error track untrack admit end_session leave finish close_active
step-Hears h cancels = h
step-Hears (inl l) (accepts n m) = inl l
step-Hears (inr (f, e)) (accepts n m) = absurd (cc (e, m))
step-Hears (inl l) (accept_fails n t m) = inl l
step-Hears (inr (f, e)) (accept_fails n t m) = absurd (cc (e, m))
step-Hears (inl l) (retries n m) = inl l
step-Hears (inr (f, e)) (retries n m) = absurd (cc (e, m))
step-Hears (inl l) (gives_up n m c) = inl l
step-Hears (inr (f, e)) (gives_up n m c) = absurd (cc (e, m))
step-Hears h (drained f m z) = inr (f, refl)
step-Hears (inl l) (grace_ends f m) = inl l
step-Hears (inr (f, e)) (grace_ends g m) = absurd (cc (e, m))
step-Hears h (closes f m z) = inr (f, refl)
step-Hears h (tracks i p) = h
step-Hears {s} (inl l) (admits i p) = inl (acquire_slot-listening s ∙ l)
step-Hears {s} (inr (f, e)) (admits i p) = inr (f, acquire_slot-main s ∙ e)
step-Hears {s} (inl l) (ends i p) = inl (release_slot-listening s ∙ l)
step-Hears {s} (inr (f, e)) (ends i p) = inr (f, release_slot-main s ∙ e)
step-Hears h (refuses i p) = h
step-Hears h (leaves i p) = h
step-Hears h (finishes i p) = h

reach-Hears : {capacity : Option ℕ} {s : Server} → Reach capacity s → Hears s
reach-Hears start = inl refl
reach-Hears (later r st) = step-Hears (reach-Hears r) st

-- Behind Listen, `Start` never is where it was before.
on_accept_error-main :
    (is_timeout : Bool) (backoff : ℕ) (s : Server)
    → (on_accept_error is_timeout backoff s).main ≢ unstarted
unfolding on_accept_error
on_accept_error-main is_timeout backoff s h = elim (Bool-cases s.cancelled) [
  | inl c ↦ absurd (cc (simp (c, on_accept_error) at h))
  | inr c ↦ elim (Bool-cases is_timeout) [
    | inl t ↦ absurd (cc (simp (c, t, on_accept_error) at h))
    | inr t ↦ absurd (cc (simp (c, t, on_accept_error) at h))
  ]
]

step-main : {s t : Server} → s.main ≢ unstarted → Step s t → t.main ≢ unstarted
unfolding on_accept track untrack admit end_session leave finish close_active
step-main h cancels = h
step-main h (accepts n m) = λ e. cc e
step-main {s} h (accept_fails n t m) = on_accept_error-main t n s
step-main h (retries n m) = λ e. cc e
step-main h (gives_up n m c) = λ e. cc e
step-main h (drained f m z) = λ e. cc e
step-main h (grace_ends f m) = λ e. cc e
step-main h (closes f m z) = λ e. cc e
step-main h (tracks i p) = h
step-main {s} h (admits i p) = λ e. h (sym (acquire_slot-main s) ∙ e)
step-main {s} h (ends i p) = λ e. h (sym (release_slot-main s) ∙ e)
step-main h (refuses i p) = h
step-main h (leaves i p) = h
step-main h (finishes i p) = h

reach-main : {capacity : Option ℕ} {s : Server} → Reach capacity s → s.main ≢ unstarted
reach-main start = λ e. cc e
reach-main (later r st) = step-main (reach-main r) st

-- Behind Listen, it is down exactly when `Start` has returned; a server that only drains says that
-- it listens.
returned_iff :
    {capacity : Option ℕ} {s : Server}
    → Reach capacity s
    → (s.listening ≡ false) ↔ ((failed : Bool) × (s.main ≡ returned failed))
returned_iff {s = s} r = (
  λ e. elim (reach-Hears r) [ inl l ↦ absurd (cc (e, l)) | inr over ↦ over ],
  λ over. (returned-IsSettled r over.1).deaf,
)

-- It is down exactly before Listen has succeeded and behind the return of `Start`, that of a Listen
-- that failed included.
pub listening_iff :
    {capacity : Option ℕ} {s : Server}
    → Life capacity s
    → (s.listening ≡ false)
      ↔ ((s.main ≡ unstarted) ⊎ ((failed : Bool) × (s.main ≡ returned failed)))
listening_iff created = ((λ _. inl refl), (λ _. refl))
listening_iff listen_failed = ((λ _. inr (true, refl)), (λ _. refl))
listening_iff (listened r) = (
  λ e. inr ((returned_iff r).0 e),
  λ over. elim over [ inl u ↦ absurd (reach-main r u) | inr ret ↦ (returned_iff r).1 ret ],
)
