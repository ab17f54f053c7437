-- ===== src/Proxy/Splice.antt =====
-- src/internal/proxy/relay.go: the two goroutines of `relay` and the connections that they share,
-- as steps. The copy of the client's half is seen by what it is blocked in; what relayFromBackend
-- does until it returns is not seen here.
pub mod Ordered
pub mod Ending
use pg_k8s_proxy.Common.{◌≡◌, Option, none, some, Bool, true, false}
use pg_k8s_proxy.Proxy.Relay.{RelayError}
use pg_k8s_proxy.Proxy.Session.{HandleError, join_errors}

-- Where the goroutine of the copy is: in a read of the client, in a write to the backend, behind
-- io.Copy with `upstreamErr`, or behind wg.Done.
pub data Copy : Type 0 where
  reading writing : Copy
  ended copied : Option RelayError → Copy

-- Where `relay` itself is, with `downstreamErr`: in relayFromBackend, behind it, behind the
-- half-close of the client, at wg.Wait, or behind its return.
pub data Stage : Type 0 where
  relaying : Stage
  stopped half_closed waiting : Option RelayError → Stage
  returned : Option HandleError → Stage

pub record Duplex : Type 0 where
  pub copy : Copy
  pub stage : Stage
  -- Whether the gateway closed the client's connection, and its halves towards both.
  pub client_closed : Bool
  pub client_shut : Bool
  pub backend_shut : Bool

abbrev pub begun : Duplex
begun = record {
  copy = reading;
  stage = relaying;
  client_closed = false;
  client_shut = false;
  backend_shut = false;
}

-- What the gateway does by itself. A read of a connection that was closed fails with an error that
-- isBenignClose takes for none; a write to the backend has no such way out.
pub data Own (s : Duplex) : Duplex → Type 0 where
  read_fails : s.copy ≡ reading → s.client_closed ≡ true → Own s (record s { copy = ended none })
  finishes :
      (e : Option RelayError)
      → s.copy ≡ ended e
      → Own s (record s { copy = copied e; backend_shut = true })
  shuts_client :
      (e : Option RelayError)
      → s.stage ≡ stopped e
      → Own s (record s { stage = half_closed e; client_shut = true })
  closes_client :
      (e : Option RelayError)
      → s.stage ≡ half_closed e
      → Own s (record s { stage = waiting e; client_closed = true })
  returns :
      (down up : Option RelayError)
      → s.stage ≡ waiting down
      → s.copy ≡ copied up
      → Own s (record s { stage = returned (join_errors down up) })

-- What depends on the client, on the backend, or on the server's drain, which closes the client.
pub data World (s : Duplex) : Duplex → Type 0 where
  client_sends : s.copy ≡ reading → s.client_closed ≡ false → World s (record s { copy = writing })
  client_ends : (e : Option RelayError) → s.copy ≡ reading → World s (record s { copy = ended e })
  backend_takes : s.copy ≡ writing → World s (record s { copy = reading })
  backend_breaks :
      (e : Option RelayError) → s.copy ≡ writing → World s (record s { copy = ended e })
  backend_stops :
      (e : Option RelayError) → s.stage ≡ relaying → World s (record s { stage = stopped e })
  drain_closes : World s (record s { client_closed = true })

pub data Reach : Duplex → Type 0 where
  start : Reach begun
  by_own : {s t : Duplex} → Reach s → Own s t → Reach t
  by_world : {s t : Duplex} → Reach s → World s t → Reach t
