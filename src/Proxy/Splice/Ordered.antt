-- ===== src/Proxy/Splice/Ordered.antt =====
-- What has been closed at each stage of a relay.
use pg_k8s_proxy.Common.{◌≡◌, ◌≢◌, refl, Option, none, Bool, true, subst}
use pg_k8s_proxy.Proxy.Relay.{RelayError}
use pg_k8s_proxy.Proxy.Session.{join_errors}
use pg_k8s_proxy.Proxy.Splice.{
  Copy, reading, writing, ended, copied, Stage, relaying, stopped, half_closed, waiting, returned,
  Duplex, Own, read_fails, finishes, shuts_client, closes_client, returns, World, client_sends,
  client_ends, backend_takes, backend_breaks, backend_stops, drain_closes, Reach, start, by_own,
  by_world,
}

-- What has been closed at a stage, and what the copy has left.
abbrev pub Closed : Stage → Duplex → Type 0
Closed relaying s = Unit
Closed (stopped e) s = Unit
Closed (half_closed e) s = s.client_shut ≡ true
Closed (waiting e) s = (s.client_shut ≡ true) × (s.client_closed ≡ true)
Closed (returned r) s =
    (s.client_shut ≡ true)
    × (s.client_closed ≡ true)
    × (down : Option RelayError) × (up : Option RelayError) × (s.copy ≡ copied up)
    × (r ≡ join_errors down up)

abbrev pub Shut : Copy → Duplex → Type 0
Shut (copied e) s = s.backend_shut ≡ true
Shut _ s = Unit

pub record IsOrdered (s : Duplex) : Type 0 where
  pub stage : Closed s.stage s
  pub copy : Shut s.copy s

-- Only a copy that is not over changes, and then `relay` has not returned.
recopied :
    (st : Stage) (s : Duplex) (c : Copy)
    → ((up : Option RelayError) → s.copy ≢ copied up)
    → Closed st s
    → Closed st (record s { copy = c })
recopied relaying s c unfinished h = tt
recopied (stopped e) s c unfinished h = tt
recopied (half_closed e) s c unfinished h = h
recopied (waiting e) s c unfinished h = h
recopied (returned r) s c unfinished (a, b, down, up, is, e) = absurd (unfinished up is)

closing : (st : Stage) (s : Duplex) → Closed st s → Closed st (record s { client_closed = true })
closing relaying s h = tt
closing (stopped e) s h = tt
closing (half_closed e) s h = h
closing (waiting e) s (a, b) = (a, refl)
closing (returned r) s (a, b, down, up, is, e) = (a, refl, down, up, is, e)

shutting_backend :
    (st : Stage) (s : Duplex) → Closed st s → Closed st (record s { backend_shut = true })
shutting_backend relaying s h = tt
shutting_backend (stopped e) s h = tt
shutting_backend (half_closed e) s h = h
shutting_backend (waiting e) s h = h
shutting_backend (returned r) s h = h

kept-Shut :
    (c : Copy) (s : Duplex) (st : Stage) (a b : Bool)
    → Shut c s
    → Shut c (record s { stage = st; client_closed = a; client_shut = b })
kept-Shut reading s st a b h = tt
kept-Shut writing s st a b h = tt
kept-Shut (ended e) s st a b h = tt
kept-Shut (copied e) s st a b h = h

-- What the invariant says at a stage.
pub closed_at : (s : Duplex) (st : Stage) → IsOrdered s → s.stage ≡ st → Closed st s
closed_at s st o h = subst (λ x. Closed x s) h o.stage

own-IsOrdered : {s t : Duplex} → IsOrdered s → Own s t → IsOrdered t
own-IsOrdered {s} o (read_fails h c) = record {
  stage = recopied s.stage s (ended none) (λ up e. cc (h, e)) o.stage;
  copy = tt;
}
own-IsOrdered {s} o (finishes e h) = record {
  stage =
      shutting_backend s.stage (record s { copy = copied e })
        (recopied s.stage s (copied e) (λ up k. cc (h, k)) o.stage);
  copy = refl;
}
own-IsOrdered {s} o (shuts_client e h) = record {
  stage = refl;
  copy = kept-Shut s.copy s (half_closed e) s.client_closed true o.copy;
}
own-IsOrdered {s} o (closes_client e h) = record {
  stage = (closed_at s (half_closed e) o h, refl);
  copy = kept-Shut s.copy s (waiting e) true s.client_shut o.copy;
}
own-IsOrdered {s} o (returns down up h k) = record {
  stage = let (a, b) = closed_at s (waiting down) o h in (a, b, down, up, k, refl);
  copy = kept-Shut s.copy s (returned (join_errors down up)) s.client_closed s.client_shut o.copy;
}

world-IsOrdered : {s t : Duplex} → IsOrdered s → World s t → IsOrdered t
world-IsOrdered {s} o (client_sends h c) = record {
  stage = recopied s.stage s writing (λ up e. cc (h, e)) o.stage;
  copy = tt;
}
world-IsOrdered {s} o (client_ends e h) = record {
  stage = recopied s.stage s (ended e) (λ up k. cc (h, k)) o.stage;
  copy = tt;
}
world-IsOrdered {s} o (backend_takes h) = record {
  stage = recopied s.stage s reading (λ up e. cc (h, e)) o.stage;
  copy = tt;
}
world-IsOrdered {s} o (backend_breaks e h) = record {
  stage = recopied s.stage s (ended e) (λ up k. cc (h, k)) o.stage;
  copy = tt;
}
world-IsOrdered {s} o (backend_stops e h) = record {
  stage = tt;
  copy = kept-Shut s.copy s (stopped e) s.client_closed s.client_shut o.copy;
}
world-IsOrdered {s} o drain_closes = record {
  stage = closing s.stage s o.stage;
  copy = kept-Shut s.copy s s.stage true s.client_shut o.copy;
}

pub reach-IsOrdered : {s : Duplex} → Reach s → IsOrdered s
reach-IsOrdered start = record { stage = tt; copy = tt }
reach-IsOrdered (by_own r st) = own-IsOrdered (reach-IsOrdered r) st
reach-IsOrdered (by_world r st) = world-IsOrdered (reach-IsOrdered r) st
