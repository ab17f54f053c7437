-- ===== src/Proxy/Server.antt =====
-- src/internal/proxy/server.go, and `serve`, `acquireSlot` and `releaseSlot` of
-- src/internal/proxy/session.go: the goroutine of `Start` and the goroutines of the sessions, as
-- steps on the state that they share. A method that holds the mutex is one step. What a session
-- does inside `handle` is not seen here: it returns at any time.
pub mod Books
pub mod Moves
pub mod Gate
pub mod Draining
pub mod Shutdown
pub mod Listening
use pg_k8s_proxy.Common.{
  ℕ, ℤ, pos, negsuc, zero, suc, ◌+◌, ◌-◌, ◌*◌, ◌<◌, ◌≡◌, Bytes, Option, none, some, Bool, true,
  false, not, ◌||◌, Result, ok, err, fail_if, ◌>>=◌, ◌>>◌, is_empty, ltb, ltb_ℤ, if◌then◌else◌,
  update,
}
use pg_k8s_proxy.Proxy.Backoff.{next_backoff}

-- `ServerTLS`: whether it has a configuration, and `Required`.
pub record TlsSettings : Type 0 where
  pub has_config : Bool
  pub required : Bool

-- `Config`, with the times in nanoseconds.
pub record Config : Type 0 where
  pub listen_address : Bytes
  pub has_routes : Bool
  pub tls : Option TlsSettings
  pub max_connections : ℤ
  pub startup_timeout : ℤ
  pub dial_timeout : ℤ
  pub shutdown_grace_period : ℤ
  pub keep_alive_period : ℤ

abbrev pub seconds : ℕ → ℤ
seconds n = pos (n * 1000000000)

-- `if t <= 0 { t = def }`.
abbrev pub or_default : ℤ → ℤ → ℤ
or_default t default = if ltb_ℤ (pos 0) t then t else default

unfoldable pub apply_defaults : Config → Config
apply_defaults c = record c {
  startup_timeout = or_default c.startup_timeout (seconds 30);
  dial_timeout = or_default c.dial_timeout (seconds 5);
  shutdown_grace_period = or_default c.shutdown_grace_period (seconds 30);
  keep_alive_period = or_default c.keep_alive_period (seconds 30);
}

pub data NewError : Type 0 where
  routes_required listen_address_required tls_config_required : NewError
  negative_max_connections : ℤ → NewError

abbrev pub lacks_config : Option TlsSettings → Bool
lacks_config none = false
lacks_config (some t) = not t.has_config

-- The capacity of the channel `slots`; `none` for a channel that is nil.
abbrev pub slots_for : ℤ → Option ℕ
slots_for (pos zero) = none
slots_for (pos (suc n)) = some (suc n)
slots_for (negsuc n) = none

-- `New`: the configuration with its defaults, and the slots.
unfoldable pub new : Config → Result NewError (Config × Option ℕ)
new c = do
  fail_if (not c.has_routes) routes_required
  fail_if (is_empty c.listen_address) listen_address_required
  fail_if (lacks_config c.tls) tls_config_required
  fail_if (ltb_ℤ c.max_connections (pos 0)) (negative_max_connections c.max_connections)
  ok (apply_defaults c, slots_for c.max_connections)

-- Where the goroutine of a connection is: not there yet; before `track`; before `acquireSlot`;
-- refused; in `handle`; and, of the deferred calls, behind `releaseSlot` and behind `untrack`.
pub data Phase : Type 0 where
  absent accepted tracked refused serving released untracked finished : Phase

-- Where the goroutine of `Start` is: not behind Listen yet; in `acceptLoop` at Accept or at the
-- delay, in `drain` before and behind the end of the grace period, or behind its return.
pub data Main : Type 0 where
  unstarted : Main
  accepting backing_off : ℕ → Main
  draining closing returned : Bool → Main

-- Connections are numbered as they are accepted. The `Bool` of a main that drains says whether
-- `acceptLoop` returned an error.
pub record Server : Type 0 where
  pub capacity : Option ℕ
  pub slots : ℕ
  pub active : ℕ → Bool
  pub closed : ℕ → Bool
  pub phase : ℕ → Phase
  pub next : ℕ
  -- The counter of the WaitGroup.
  pub sessions : ℕ
  pub main : Main
  pub cancelled : Bool
  pub listening : Bool

-- What `New` returns.
abbrev pub created_server : Option ℕ → Server
created_server capacity = record {
  capacity = capacity;
  slots = 0;
  active = λ _. false;
  closed = λ _. false;
  phase = λ _. absent;
  next = 0;
  sessions = 0;
  main = unstarted;
  cancelled = false;
  listening = false;
}

-- Listen in `Start`, that succeeds and that fails.
abbrev pub on_listen : Server → Server
on_listen s = record s { main = accepting 0; listening = true }

abbrev pub on_listen_error : Server → Server
on_listen_error s = record s { main = returned true }

-- Behind the successful Listen of `Start`.
abbrev pub listening_server : Option ℕ → Server
listening_server capacity = on_listen (created_server capacity)

abbrev pub at_phase : ℕ → Phase → Server → Server
at_phase i p s = record s { phase = update i p s.phase }

unfoldable pub track : ℕ → Server → Server
track i s = record s { active = update i true s.active }

unfoldable pub untrack : ℕ → Server → Server
untrack i s = record s { active = update i false s.active }

unfoldable pub acquire_slot : Server → Bool × Server
acquire_slot s = elim s.capacity [
  | none ↦ (true, s)
  | some n ↦ if ltb s.slots n then (true, record s { slots = suc s.slots }) else (false, s)
]

unfoldable pub release_slot : Server → Server
release_slot s = elim s.capacity [ none ↦ s | some _ ↦ record s { slots = s.slots - 1 } ]

-- The steps of `serve` on connection `i`.
unfoldable pub admit : ℕ → Server → Server
admit i s =
    let (acquired, s') = acquire_slot s in at_phase i (if acquired then serving else refused) s'

unfoldable pub end_session : ℕ → Server → Server
end_session i s = at_phase i released (release_slot s)

unfoldable pub leave : ℕ → Server → Server
leave i s = at_phase i untracked (untrack i s)

-- `conn.Close` and `sessions.Done`.
unfoldable pub finish : ℕ → Server → Server
finish i s =
    at_phase i finished (record s { closed = update i true s.closed; sessions = s.sessions - 1 })

-- An Accept that succeeds, and the goroutine that it starts.
unfoldable pub on_accept : Server → Server
on_accept s = record (at_phase s.next accepted s) {
  next = suc s.next;
  sessions = suc s.sessions;
  main = accepting 0;
}

-- An Accept that fails, by a timeout or otherwise, after delays that have grown to `backoff`.
unfoldable pub on_accept_error : Bool → ℕ → Server → Server
on_accept_error is_timeout backoff s = record s {
  main =
      if s.cancelled
      then draining false
      else if is_timeout
      then backing_off (next_backoff backoff)
      else draining true;
}

-- The end of the grace period: what is still tracked is closed.
unfoldable pub close_active : Bool → Server → Server
close_active failed s = record s { closed = (λ i. s.closed i || s.active i); main = closing failed }

abbrev pub returns : Bool → Server → Server
returns failed s = record s { main = returned failed; listening = false }

pub data Step (s : Server) : Server → Type 0 where
  cancels : Step s (record s { cancelled = true })
  accepts : (backoff : ℕ) → s.main ≡ accepting backoff → Step s (on_accept s)
  accept_fails :
      (backoff : ℕ) (is_timeout : Bool)
      → s.main ≡ accepting backoff
      → Step s (on_accept_error is_timeout backoff s)
  retries :
      (backoff : ℕ) → s.main ≡ backing_off backoff → Step s (record s { main = accepting backoff })
  gives_up :
      (backoff : ℕ)
      → s.main ≡ backing_off backoff
      → s.cancelled ≡ true
      → Step s (record s { main = draining false })
  drained : (failed : Bool) → s.main ≡ draining failed → s.sessions ≡ 0 → Step s (returns failed s)
  grace_ends : (failed : Bool) → s.main ≡ draining failed → Step s (close_active failed s)
  closes : (failed : Bool) → s.main ≡ closing failed → s.sessions ≡ 0 → Step s (returns failed s)
  tracks : (i : ℕ) → s.phase i ≡ accepted → Step s (at_phase i tracked (track i s))
  admits : (i : ℕ) → s.phase i ≡ tracked → Step s (admit i s)
  ends : (i : ℕ) → s.phase i ≡ serving → Step s (end_session i s)
  refuses : (i : ℕ) → s.phase i ≡ refused → Step s (leave i s)
  leaves : (i : ℕ) → s.phase i ≡ released → Step s (leave i s)
  finishes : (i : ℕ) → s.phase i ≡ untracked → Step s (finish i s)

pub data Reach (capacity : Option ℕ) : Server → Type 0 where
  start : Reach capacity (listening_server capacity)
  later : {s t : Server} → Reach capacity s → Step s t → Reach capacity t

-- From `New` on: before `Start` is behind Listen, behind a Listen that failed, or behind one that
-- succeeded.
pub data Life (capacity : Option ℕ) : Server → Type 0 where
  created : Life capacity (created_server capacity)
  listen_failed : Life capacity (on_listen_error (created_server capacity))
  listened : {s : Server} → Reach capacity s → Life capacity s
