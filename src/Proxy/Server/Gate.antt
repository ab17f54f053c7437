-- ===== src/Proxy/Server/Gate.antt =====
-- The limit on concurrent sessions, against a gate that only counts who is inside.
use pg_k8s_proxy.Common.{
  ℕ, suc, ◌≤◌, ◌<◌, ◌≡◌, refl, ap, ◌∙◌, Option, none, some, true, false, if◌then◌else◌, sum,
  sum-update_above, Bool-cases, Option-cases, inl, inr, arith,
}
use pg_k8s_proxy.Proxy.Server.{
  Server, Phase, accepted, tracked, refused, serving, released, Step, Reach, start, later,
  acquire_slot, admit, on_accept, on_accept_error, close_active, cancels, accepts, accept_fails,
  retries, gives_up, drained, grace_ends, closes, tracks, admits, ends, refuses, leaves, finishes,
}
use pg_k8s_proxy.Proxy.Server.Books.{holds, in_handle, expected_slots, IsBooked, Moves, Moves-sum}
use pg_k8s_proxy.Proxy.Server.Moves.{
  tracks-Moves, leaves-Moves, finishes-Moves, ends-Moves, admits-Moves, acquire_unlimited,
  acquire_limited, reach-IsBooked,
}

pub record Gate : Type 0 where
  pub limit : Option ℕ
  pub inside : ℕ

pub data Event : Type 0 where
  enters turned_away goes nothing : Event

abbrev pub HasRoom : Option ℕ → ℕ → Type 0
HasRoom none inside = Unit
HasRoom (some n) inside = inside < n

-- One enters while there is room, one is turned away only if the gate is full, and one goes.
pub data GateStep (g : Gate) : Event → Gate → Type 0 where
  enter : HasRoom g.limit g.inside → GateStep g enters (record g { inside = suc g.inside })
  turn_away : g.limit ≡ some g.inside → GateStep g turned_away g
  go : (left : ℕ) → g.inside ≡ suc left → GateStep g goes (record g { inside = left })
  idle : GateStep g nothing g

abbrev pub gate_of : Server → Gate
gate_of s = record { limit = s.capacity; inside = in_handle s }

-- What a step of the server is to the gate.
abbrev pub event_of : {s t : Server} → Step s t → Event
event_of {s} (admits i h) = if (acquire_slot s).0 then enters else turned_away
event_of (ends i h) = goes
event_of _ = nothing

same_gate :
    (s t : Server)
    → t.capacity ≡ s.capacity
    → in_handle t ≡ in_handle s
    → GateStep (gate_of s) nothing (gate_of t)
same_gate s t c n = rw (c, n) idle

Moves-idle :
    {i : ℕ} {p q : Phase} {s t : Server}
    → Moves i p q s t
    → IsBooked s
    → holds p ≡ holds q
    → GateStep (gate_of s) nothing (gate_of t)
Moves-idle {i} {p} {q} {s} {t} m b h =
    same_gate s t m.same_capacity (omega (arith, Moves-sum holds m b, h))

Moves-goes :
    {i : ℕ} {s t : Server}
    → Moves i serving released s t
    → IsBooked s
    → GateStep (gate_of s) goes (gate_of t)
Moves-goes {i} {s} {t} m b =
    rw m.same_capacity (go (in_handle t) (omega (arith, Moves-sum holds m b)))

Moves-enters :
    {i : ℕ} {s t : Server}
    → Moves i tracked serving s t
    → IsBooked s
    → HasRoom s.capacity (in_handle s)
    → GateStep (gate_of s) enters (gate_of t)
Moves-enters {i} {s} {t} m b room =
    let more : in_handle t ≡ suc (in_handle s) = omega (arith, Moves-sum holds m b) in
    rw (m.same_capacity, more) (enter room)

Moves-turned_away :
    {i : ℕ} {s t : Server}
    → Moves i tracked refused s t
    → IsBooked s
    → s.capacity ≡ some (in_handle s)
    → GateStep (gate_of s) turned_away (gate_of t)
Moves-turned_away {i} {s} {t} m b full =
    let same : in_handle t ≡ in_handle s = omega (arith, Moves-sum holds m b) in
    rw (m.same_capacity, same) (turn_away full)

-- A slot is free exactly while the number of sessions is below the limit.
room_of : (s : Server) → IsBooked s → (acquire_slot s).0 ≡ true → HasRoom s.capacity (in_handle s)
room_of s b a = elim (Option-cases s.capacity) [
  | inl c ↦ rw c tt
  | inr (n, c) ↦
      let l = rw (acquire_limited s n c) at a in
      rw c (ground (arith, b.slots_are ∙ ap (expected_slots s) c, l))
]

full_of : (s : Server) → IsBooked s → (acquire_slot s).0 ≡ false → s.capacity ≡ some (in_handle s)
full_of s b a = elim (Option-cases s.capacity) [
  | inl c ↦ absurd (cc (rw (acquire_unlimited s c) at a))
  | inr (n, c) ↦
      let l = rw (acquire_limited s n c) at a in
      c ∙ ap some (ground (arith, b.slots_are ∙ ap (expected_slots s) c, b.within n c, l))
]

admits-gate :
    (i : ℕ) (s : Server)
    → s.phase i ≡ tracked
    → IsBooked s
    → GateStep
        (gate_of s)
        (if (acquire_slot s).0 then enters else turned_away)
        (gate_of (admit i s))
admits-gate i s h b = elim (Bool-cases (acquire_slot s).0) [
  | inl a ↦ rw a (Moves-enters (rw a at (admits-Moves i s h b)) b (room_of s b a))
  | inr a ↦ rw a (Moves-turned_away (rw a at (admits-Moves i s h b)) b (full_of s b a))
]

accepts-gate : (s : Server) → IsBooked s → GateStep (gate_of s) nothing (gate_of (on_accept s))
unfolding on_accept sum
accepts-gate s b =
    same_gate s (on_accept s) refl
      (ground (arith, sum-update_above holds s.next s.next accepted s.phase (omega arith)))

-- Every step of the server is a step of the gate: a session begins only while fewer run than the
-- limit, a client is turned away only if exactly as many run as the limit allows, a session that
-- ends makes room, and nothing else changes who is inside.
pub step_refines :
    {capacity : Option ℕ} {s t : Server}
    → Reach capacity s
    → (st : Step s t) → GateStep (gate_of s) (event_of st) (gate_of t)
unfolding on_accept_error close_active
step_refines r cancels = idle
step_refines {s = s} r (accepts n h) = accepts-gate s (reach-IsBooked r)
step_refines r (accept_fails n t h) = idle
step_refines r (retries n h) = idle
step_refines r (gives_up n h c) = idle
step_refines r (drained f h e) = idle
step_refines r (grace_ends f h) = idle
step_refines r (closes f h e) = idle
step_refines {s = s} r (tracks i h) =
    let b = reach-IsBooked r in Moves-idle (tracks-Moves i s h b) b refl
step_refines {s = s} r (admits i h) = admits-gate i s h (reach-IsBooked r)
step_refines {s = s} r (ends i h) = let b = reach-IsBooked r in Moves-goes (ends-Moves i s h b) b
step_refines {s = s} r (refuses i h) =
    let b = reach-IsBooked r in Moves-idle (leaves-Moves i s refused h refl refl b) b refl
step_refines {s = s} r (leaves i h) =
    let b = reach-IsBooked r in Moves-idle (leaves-Moves i s released h refl refl b) b refl
step_refines {s = s} r (finishes i h) =
    let b = reach-IsBooked r in Moves-idle (finishes-Moves i s h b) b refl

GateStep-limit : {g h : Gate} {e : Event} → GateStep g e h → h.limit ≡ g.limit
GateStep-limit (enter room) = refl
GateStep-limit (turn_away full) = refl
GateStep-limit (go left n) = refl
GateStep-limit idle = refl

reach-capacity : {capacity : Option ℕ} {s : Server} → Reach capacity s → s.capacity ≡ capacity
reach-capacity start = refl
reach-capacity (later r st) = GateStep-limit (step_refines r st) ∙ reach-capacity r

-- With MaxConnections set, never more sessions than that are in `handle` at once, in whatever order
-- connections come, sessions end and the server shuts down, and the channel holds one element for
-- each of them.
pub sessions_limited :
    {limit : ℕ} {s : Server}
    → Reach (some limit) s
    → (in_handle s ≤ limit) × (s.slots ≡ in_handle s)
sessions_limited {limit} {s} r =
    let b = reach-IsBooked r in
    let held = b.slots_are ∙ ap (expected_slots s) (reach-capacity r) in
    (omega (arith, held, b.within limit (reach-capacity r)), held)
