-- ===== src/Controller/Discovery/Events.antt =====
-- src/internal/controller/servicediscovery_controller.go: `SetupWithManager`, and the events of
-- Services that it lets reach `Reconcile`.
use pg_k8s_proxy.Common.{Bytes, Option, none, some, Bool, Result, ok, err, is_empty, if◌then◌else◌}
use pg_k8s_proxy.Config.{Selector}
use pg_k8s_proxy.Controller.Services.{Service, database_annotation_default}
use pg_k8s_proxy.Controller.Discovery.{Reconciler, Store, Outcome, done, reconcile}

pub data SetupError : Type 0 where
  selector_empty : SetupError

-- The checks of `SetupWithManager`: the selector, and the annotation with its default.
unfoldable pub setup : Option Selector → Bytes → Result SetupError (Selector × Bytes)
setup none annotation = err selector_empty
setup (some s) annotation =
    if s.empty
    then err selector_empty
    else ok (s, if is_empty annotation then database_annotation_default else annotation)

-- An event of the watch on Services; an update carries the object before and after.
pub data ServiceEvent : Type 0 where
  created deleted : Service → ServiceEvent
  updated : Service → Service → ServiceEvent

-- The object that `predicate.NewPredicateFuncs` gives to the filter, and whose name is enqueued.
abbrev pub subject : ServiceEvent → Service
subject (created svc) = svc
subject (deleted svc) = svc
subject (updated before after) = after

-- `matchesSelector`.
unfoldable pub matches_selector : Reconciler → ServiceEvent → Bool
matches_selector r event = r.matches (subject event).labels

-- An event, with the reconcile that it sets off.
unfoldable pub on_event : Reconciler → ServiceEvent → Store → Outcome × Store
on_event r event store =
    if matches_selector r event then reconcile r (subject event).key store else (done, store)
