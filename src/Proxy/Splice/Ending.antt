-- ===== src/Proxy/Splice/Ending.antt =====
-- How a relay ends once the backend's half has.
use pg_k8s_proxy.Common.{ℕ, suc, ◌≡◌, ◌≢◌, ◌↔◌, refl, sym, ap, ◌∙◌, Option, none, true, subst}
use pg_k8s_proxy.Proxy.Relay.{RelayError}
use pg_k8s_proxy.Proxy.Session.{HandleError, join_errors}
use pg_k8s_proxy.Proxy.Splice.{
  Copy, reading, writing, ended, copied, Stage, relaying, stopped, half_closed, waiting, returned,
  Duplex, Own, read_fails, finishes, shuts_client, closes_client, returns, Reach, by_own,
}
use pg_k8s_proxy.Proxy.Splice.Ordered.{Shut, closed_at, reach-IsOrdered}

-- The error that the backend's half has ended with, where `relay` has not returned yet.
abbrev pub down_of : Stage → Option RelayError
down_of (stopped e) = e
down_of (half_closed e) = e
down_of (waiting e) = e
down_of _ = none

-- The error of the client's half: a read that goes on will be cut off, which is no error.
abbrev pub up_of : Copy → Option RelayError
up_of (ended e) = e
up_of (copied e) = e
up_of _ = none

-- What `relay` returns from there.
abbrev pub result_of : Stage → Copy → Option HandleError
result_of (returned r) c = r
result_of st c = join_errors (down_of st) (up_of c)

-- `relay` has returned this result, the copy has ended with this error, and both connections were
-- told so.
pub record IsOver (r : Option HandleError) (up : Option RelayError) (t : Duplex) : Type 0 where
  pub result : t.stage ≡ returned r
  pub copied_up : t.copy ≡ copied up
  pub client_shut : t.client_shut ≡ true
  pub client_closed : t.client_closed ≡ true
  pub backend_shut : t.backend_shut ≡ true

returned-IsOver :
    {t : Duplex} (r : Option HandleError) (up : Option RelayError)
    → Reach t
    → t.stage ≡ returned r
    → t.copy ≡ copied up
    → IsOver r up t
returned-IsOver {t} r up reach h c =
    let o = reach-IsOrdered reach in
    let (a, b, _, _, _, _) = closed_at t (returned r) o h in
    record {
      result = h;
      copied_up = c;
      client_shut = a;
      client_closed = b;
      backend_shut = subst (λ x. Shut x t) c o.copy;
    }

-- At most so many steps of the gateway's own.
pub data OwnRun : Duplex → ℕ → Duplex → Type 0 where
  done : {s : Duplex} {n : ℕ} → OwnRun s n s
  then_own : {s t u : Duplex} {n : ℕ} → Own s t → OwnRun t n u → OwnRun s (suc n) u

abbrev pub Ends : Duplex → ℕ → Type 0
Ends s n = (t : Duplex) × OwnRun s n t × IsOver (result_of s.stage s.copy) (up_of s.copy) t

-- With the result and the error spelled out.
abbrev EndsWith : Duplex → ℕ → Option HandleError → Option RelayError → Type 0
EndsWith s n r up = (t : Duplex) × OwnRun s n t × IsOver r up t

from_waiting :
    (s : Duplex) (d : Option RelayError) (c : Copy)
    → Reach s
    → s.stage ≡ waiting d
    → s.copy ≡ c
    → c ≢ writing
    → EndsWith s 3 (join_errors d (up_of c)) (up_of c)
from_waiting s d writing r h k w = absurd (w refl)
from_waiting s d (copied u) r h k w =
    let last = returns d u h k in
    (_, then_own last done, returned-IsOver _ u (by_own r last) refl k)
from_waiting s d (ended u) r h k w =
    let first = finishes u k in
    let last = returns d u h refl in
    (
      _,
      then_own first (then_own last done),
      returned-IsOver _ u (by_own (by_own r first) last) refl refl,
    )
from_waiting s d reading r h k w =
    let closed = closed_at s (waiting d) (reach-IsOrdered r) h in
    let first = read_fails k closed.1 in
    let second = finishes none refl in
    let last = returns d none h refl in
    (
      _,
      then_own first (then_own second (then_own last done)),
      returned-IsOver _ none (by_own (by_own (by_own r first) second) last) refl refl,
    )

from_half_closed :
    (s : Duplex) (e : Option RelayError)
    → Reach s
    → s.stage ≡ half_closed e
    → s.copy ≢ writing
    → EndsWith s 4 (join_errors e (up_of s.copy)) (up_of s.copy)
from_half_closed s e r h w =
    let step = closes_client e h in
    let (t, run, over) = from_waiting _ e s.copy (by_own r step) refl refl w in
    (t, then_own step run, over)

from_stopped :
    (s : Duplex) (e : Option RelayError)
    → Reach s
    → s.stage ≡ stopped e
    → s.copy ≢ writing
    → EndsWith s 5 (join_errors e (up_of s.copy)) (up_of s.copy)
from_stopped s e r h w =
    let step = shuts_client e h in
    let (t, run, over) = from_half_closed _ e (by_own r step) refl w in (t, then_own step run, over)

one_more : {s t : Duplex} {n : ℕ} → OwnRun s n t → OwnRun s (suc n) t
one_more done = done
one_more (then_own st run) = then_own st (one_more run)

Ends-from :
    (s : Duplex) (st : Stage)
    → Reach s
    → s.stage ≡ st
    → s.stage ≢ relaying
    → s.copy ≢ writing
    → EndsWith s 5 (result_of st s.copy) (up_of s.copy)
Ends-from s relaying r h n w = absurd (n h)
Ends-from s (stopped e) r h n w = from_stopped s e r h w
Ends-from s (half_closed e) r h n w =
    let (t, run, over) = from_half_closed s e r h w in (t, one_more run, over)
Ends-from s (waiting e) r h n w =
    let (t, run, over) = from_waiting s e s.copy r h refl w in (t, one_more (one_more run), over)
Ends-from s (returned e) r h n w =
    let (a, b, down, up, c, is) = closed_at s (returned e) (reach-IsOrdered r) h in
    (s, done, returned-IsOver e (up_of s.copy) r h (c ∙ ap (λ x. copied (up_of x)) (sym c)))

own_keeps_writing : {s t : Duplex} → Own s t → s.copy ≡ writing → t.copy ≡ writing
own_keeps_writing (read_fails h c) w = absurd (cc (h, w))
own_keeps_writing (finishes e h) w = absurd (cc (h, w))
own_keeps_writing (shuts_client e h) w = w
own_keeps_writing (closes_client e h) w = w
own_keeps_writing (returns down up h k) w = w

run_keeps_writing : {s t : Duplex} {n : ℕ} → OwnRun s n t → s.copy ≡ writing → t.copy ≡ writing
run_keeps_writing done w = w
run_keeps_writing (then_own st run) w = run_keeps_writing run (own_keeps_writing st w)

-- Once the backend's half of a relay has ended, the gateway by itself, with nothing more from the
-- client or the backend, brings `relay` to its return, in at most five steps, with the error that
-- the backend's half has ended with and that of the client's half joined, none for a client's half
-- that still reads, and with both connections told that it is over, exactly if the client's half is
-- not blocked in a write to the backend.
pub relay-Ends : (s : Duplex) → Reach s → s.stage ≢ relaying → Ends s 5 ↔ (s.copy ≢ writing)
relay-Ends s r n = (
  λ ends w. absurd (cc (run_keeps_writing ends.1 w, ends.2.copied_up)),
  λ w. Ends-from s s.stage r refl n w,
)
