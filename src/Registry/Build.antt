-- ===== src/Registry/Build.antt =====
-- `Build`, `less`, and the table and the decisions that they make.
pub mod Winners
pub mod Champion
pub mod Rounds
pub mod Decisions
pub mod Replicas
use pg_k8s_proxy.Common.{
  ℕ, Bytes, Option, none, some, List, [], ◌∷◌, Bool, true, false, not, ◌&&◌, Result, ok, err, Assoc,
  lookup, insert, text_eq, text_lt, eq_ℤ, ltb_ℤ, ltb, ◌==◌, if◌then◌else◌,
}
use pg_k8s_proxy.Api.{NamespacedName, name_keys, PostgresRoute, key_of, effective_database}
use pg_k8s_proxy.Common.{bytes_keys}
use pg_k8s_proxy.Registry.Resolve.{ResolveError, Resolver, Route, resolve, address}

pub record Decision : Type 0 where
  pub database : Bytes
  pub accepted : Bool
  pub conflicts_with : NamespacedName
  pub endpoint : Bytes
  pub resolve_err : Option ResolveError

abbrev pub is_none {ℓ} : {A : Type ℓ} → Option A → Bool
is_none none = true
is_none (some a) = false

-- `Programmed`.
abbrev pub programmed : Decision → Bool
programmed d = d.accepted && is_none d.resolve_err

-- The table and the decisions of a snapshot.
pub record Snapshot : Type 0 where
  pub table : Assoc Bytes Route
  pub decisions : Assoc NamespacedName Decision

-- `less`: by descending priority, then age, then namespace and name.
unfoldable pub less : PostgresRoute → PostgresRoute → Bool
less a b =
    if not (eq_ℤ a.spec.priority b.spec.priority)
    then ltb_ℤ b.spec.priority a.spec.priority
    else if not (a.meta.creation_timestamp == b.meta.creation_timestamp)
    then ltb a.meta.creation_timestamp b.meta.creation_timestamp
    else if not (text_eq a.meta.namespace b.meta.namespace)
    then text_lt a.meta.namespace b.meta.namespace
    else text_lt a.meta.name b.meta.name

-- `sort.SliceStable` by `less`: a route goes in front of those that it stood before, unless one of
-- them is less.
unfoldable pub insert_route : PostgresRoute → List PostgresRoute → List PostgresRoute
insert_route r [] = r ∷ []
insert_route r (s ∷ rs) = if less s r then s ∷ insert_route r rs else r ∷ s ∷ rs

unfoldable pub sort_routes : List PostgresRoute → List PostgresRoute
sort_routes [] = []
sort_routes (r ∷ rs) = insert_route r (sort_routes rs)

-- The three maps that the loop of `Build` fills.
pub record Progress : Type 0 where
  pub decisions : Assoc NamespacedName Decision
  pub table : Assoc Bytes Route
  pub winners : Assoc Bytes NamespacedName

abbrev pub no_name : NamespacedName
no_name = record { namespace = []; name = [] }

abbrev pub conflict : Bytes → NamespacedName → Decision
conflict database winner = record {
  database = database;
  accepted = false;
  conflicts_with = winner;
  endpoint = [];
  resolve_err = none;
}

abbrev pub accepted_as : Bytes → Result ResolveError Route → Decision
accepted_as database (ok route) = record {
  database = database;
  accepted = true;
  conflicts_with = no_name;
  endpoint = address route;
  resolve_err = none;
}
accepted_as database (err e) = record {
  database = database;
  accepted = true;
  conflicts_with = no_name;
  endpoint = [];
  resolve_err = some e;
}

abbrev pub table_with : Bytes → Result ResolveError Route → Assoc Bytes Route → Assoc Bytes Route
table_with database (ok route) table = insert database route table
table_with database (err e) table = table

abbrev pub empty_progress : Progress
empty_progress = record { decisions = []; table = []; winners = [] }

abbrev pub snapshot_of : Progress → Snapshot
snapshot_of s = record { table = s.table; decisions = s.decisions }

module _ (resolver : Resolver) (cluster_domain : Bytes) where
  -- The body of the loop. `resolveBounded` only adds a deadline to what the resolver does.
  unfoldable pub build_step : Progress → PostgresRoute → Progress
  build_step s route =
      let database = effective_database route in
      let resolved = resolve resolver cluster_domain route in
      elim (lookup database s.winners) [
        | some winner ↦ record s {
          decisions = insert (key_of route) (conflict database winner) s.decisions;
        }
        | none ↦ record {
          decisions = insert (key_of route) (accepted_as database resolved) s.decisions;
          table = table_with database resolved s.table;
          winners = insert database (key_of route) s.winners;
        }
      ]

  unfoldable pub build_loop : Progress → List PostgresRoute → Progress
  build_loop s [] = s
  build_loop s (r ∷ rs) = build_loop (build_step s r) rs

  unfoldable pub build : List PostgresRoute → Snapshot
  build routes = snapshot_of (build_loop empty_progress (sort_routes routes))
