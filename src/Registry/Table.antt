-- ===== src/Registry/Table.antt =====
-- src/internal/registry/registry.go: the routing table and the store that holds the current
-- snapshot. The table is a map from names to routes; an atomic pointer is its value.
pub mod Sorted
pub mod Names
use pg_k8s_proxy.Common.{
  ℕ, Bytes, Option, none, some, List, [], ◌∷◌, Bool, true, false, Assoc, lookup, bytes_keys,
  text_lt, length, map, if◌then◌else◌,
}
use pg_k8s_proxy.Api.{NamespacedName, name_keys}
use pg_k8s_proxy.Registry.Resolve.{Route}
use pg_k8s_proxy.Registry.Build.{Decision, Snapshot}

abbrev pub Table : Type 0
Table = Assoc Bytes Route

-- `NewTable`; nil is an empty map.
abbrev pub new_table : Option Table → Table
new_table none = []
new_table (some routes) = routes

-- `Lookup` and `Len`.
abbrev pub table_lookup : Table → Bytes → Option Route
table_lookup t database = lookup database t

abbrev pub table_len : Table → ℕ
table_len t = length t

-- `sort.Strings`.
unfoldable pub insert_text : Bytes → List Bytes → List Bytes
insert_text a [] = a ∷ []
insert_text a (b ∷ bs) = if text_lt b a then b ∷ insert_text a bs else a ∷ b ∷ bs

unfoldable pub sort_texts : List Bytes → List Bytes
sort_texts [] = []
sort_texts (a ∷ bs) = insert_text a (sort_texts bs)

-- `range` over a map gives its keys in an order of its own, which is given.
abbrev pub Range : Type 0
Range = Table → List Bytes

unfoldable pub databases : Range → Table → List Bytes
databases range t = sort_texts (range t)

-- `Snapshot.Decision`.
abbrev pub decision_of : Snapshot → NamespacedName → Option Decision
decision_of s key = lookup key s.decisions

-- A snapshot as `Store` may be given it, with a table that may be nil.
pub record Published : Type 0 where
  pub table : Option Table
  pub decisions : Assoc NamespacedName Decision

abbrev pub new_store : Snapshot
new_store = record { table = new_table none; decisions = [] }

-- What the store holds behind `Store`.
unfoldable pub store : Option Published → Snapshot
store none = record { table = new_table none; decisions = [] }
store (some p) = record { table = new_table p.table; decisions = p.decisions }
