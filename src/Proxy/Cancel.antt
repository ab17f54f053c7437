-- ===== src/Proxy/Cancel.antt =====
-- src/internal/proxy/cancel.go: the keys that the gateway hands out in place of the backends' own.
-- Each method holds the lock from its first line to its last, so it is one step on the map.
pub mod Issue
use pg_k8s_proxy.Common.{
  ℕ, ◌%◌, ◌^◌, ◌≡◌, ◌↔◌, true, Bool, ◌&&◌, Bytes, Option, none, some, List, [], ◌∷◌, Assoc, Eq,
  lookup, insert, erase, drop, ◌==◌, arith, length,
}
use pg_k8s_proxy.Wire.Io.{uint32}
use pg_k8s_proxy.Wire.Startup.{CancelRequest}
use pg_k8s_proxy.Registry.Resolve.{TlsConfig}

unfoldable pub key_eq : CancelRequest → CancelRequest → Bool
key_eq a b = a.process_id == b.process_id && a.secret_key == b.secret_key

pub key_eq_iff : (a b : CancelRequest) → (key_eq a b ≡ true) ↔ (a ≡ b)
unfolding key_eq
key_eq_iff a b = ground arith

instance abbrev pub cancel_keys : Eq CancelRequest
cancel_keys = record { beq = key_eq; beq_iff = key_eq_iff }

pub record CancelEntry : Type 0 where
  pub backend_addr : Bytes
  pub backend_key : CancelRequest
  pub tls : TlsConfig

abbrev pub CancelRegistry : Type 0
CancelRegistry = Assoc CancelRequest CancelEntry

-- `randomCancelKey`, from the eight bytes that `rand.Read` gave. The mask clears the sign bit.
unfoldable pub random_cancel_key : Bytes → CancelRequest
random_cancel_key buf = record {
  process_id = uint32 buf % 2 ^ 31;
  secret_key = uint32 (drop 4 buf);
}

-- `issue`, over the buffers that successive calls of `rand.Read` give: the key, the registry, and
-- the buffers left. With `none` every buffer was used up on keys that are taken.
unfoldable pub issue :
    List Bytes → CancelEntry → CancelRegistry → Option (CancelRequest × CancelRegistry × List Bytes)
issue [] entry entries = none
issue (buf ∷ draws) entry entries =
    let key = random_cancel_key buf in
    elim (lookup key entries) [
      | some _ ↦ issue draws entry entries
      | none ↦ some (key, insert key entry entries, draws)
    ]

abbrev pub release : CancelRequest → CancelRegistry → CancelRegistry
release key entries = erase key entries

-- `len`, and `TrackedCancelKeys`.
abbrev pub tracked_cancel_keys : CancelRegistry → ℕ
tracked_cancel_keys entries = length entries
