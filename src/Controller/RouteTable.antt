-- ===== src/Controller/RouteTable.antt =====
-- src/internal/controller/routetable.go: `RouteTableBuilder`, whose loop rebuilds the routing table
-- when the watched objects change. An informer updates the cache and then calls the handlers, in
-- goroutines of its own, so changes fall between any two steps of the loop, a rebuild's included.
-- The timer fires at any time while it is set.
pub mod Settling
pub mod Setup
use pg_k8s_proxy.Common.{
  ℕ, suc, ◌≡◌, Bytes, Option, none, some, List, Bool, true, false, if◌then◌else◌,
}
use pg_k8s_proxy.Api.{PostgresRoute}
use pg_k8s_proxy.Registry.Resolve.{Resolver}
use pg_k8s_proxy.Registry.Build.{Snapshot, build}
use pg_k8s_proxy.Registry.Table.{new_store}

-- The watched objects as the cache has them: the routes, and the resolver that Services and Secrets
-- make up.
pub record Cluster : Type 0 where
  pub routes : List PostgresRoute
  pub resolver : Resolver

-- Where the goroutine of `Start` is: at the `select`, or in `rebuild` with a cache that did or did
-- not change since it began.
pub data Loop : Type 0 where
  selecting : Loop
  rebuilding : Bool → Loop

pub record Builder : Type 0 where
  pub cluster : Cluster
  -- Calls of handlers that the informers still owe.
  pub undelivered : ℕ
  -- Whether the channel of depth one holds an element.
  pub trigger : Bool
  -- Whether the timer is set.
  pub pending : Bool
  pub loop : Loop
  -- The snapshot in the store.
  pub store : Snapshot
  -- Whether the latest rebuild failed to list the routes.
  pub failed : Bool

abbrev pub changed_under : Loop → Loop
changed_under selecting = selecting
changed_under (rebuilding _) = rebuilding false

-- The cache takes a change in, and its handler will be called.
unfoldable pub change : Cluster → Builder → Builder
change cluster b = record b {
  cluster = cluster;
  undelivered = suc b.undelivered;
  loop = changed_under b.loop;
}

-- `schedule`, called by a handler: the send does nothing if the channel is full.
unfoldable pub schedule : ℕ → Builder → Builder
schedule left b = record b { undelivered = left; trigger = true }

-- The case of `b.trigger`.
unfoldable pub on_trigger : Builder → Builder
on_trigger b = record b { trigger = false; pending = (if b.pending then b.pending else true) }

-- The case of `timer.C`, up to the start of `rebuild`.
unfoldable pub on_timer : Builder → Builder
on_timer b = record b { pending = false; loop = rebuilding true }

-- The end of `rebuild`, with the snapshot or with the error of `List`.
unfoldable pub publish : Snapshot → Builder → Builder
publish snapshot b = record b { store = snapshot; loop = selecting; failed = false }

unfoldable pub give_up : Builder → Builder
give_up b = record b { loop = selecting; failed = true }

-- `Start` behind `watch`, at the start of the first `rebuild`: for an object that is there already
-- the informers owe a call too.
abbrev pub started : ℕ → Cluster → Builder
started owed cluster = record {
  cluster = cluster;
  undelivered = owed;
  trigger = false;
  pending = false;
  loop = rebuilding true;
  store = new_store;
  failed = false;
}

module _ (cluster_domain : Bytes) where
  abbrev pub snapshot_for : Cluster → Snapshot
  snapshot_for c = build c.resolver cluster_domain c.routes

  -- The steps of the loop and of the handlers. A rebuild that the cache changed under may have read
  -- some objects before and some after, so nothing is assumed of its snapshot.
  pub data Work (b : Builder) : Builder → Type 0 where
    deliver : (left : ℕ) → b.undelivered ≡ suc left → Work b (schedule left b)
    take_trigger : b.loop ≡ selecting → b.trigger ≡ true → Work b (on_trigger b)
    fire : b.loop ≡ selecting → b.pending ≡ true → Work b (on_timer b)
    finish : b.loop ≡ rebuilding true → Work b (publish (snapshot_for b.cluster) b)
    finish_mixed : (snapshot : Snapshot) → b.loop ≡ rebuilding false → Work b (publish snapshot b)

  -- These, a change, and a rebuild that fails.
  pub data Step (b : Builder) : Builder → Type 0 where
    works : {b' : Builder} → Work b b' → Step b b'
    changes : (cluster : Cluster) → Step b (change cluster b)
    fails : (clean : Bool) → b.loop ≡ rebuilding clean → Step b (give_up b)

  pub data Reach (cluster : Cluster) : Builder → Type 0 where
    start : (owed : ℕ) → Reach cluster (started owed cluster)
    step : {b b' : Builder} → Reach cluster b → Step b b' → Reach cluster b'
