-- ===== src/Controller/Status/Writing.antt =====
-- src/internal/controller/postgresroute_controller.go: `Reconcile`, with its reads, its early
-- returns and its patch, and `equalStatus`. The API client is given.
use pg_k8s_proxy.Common.{
  ℕ, ◌*◌, Option, none, some, List, [], ◌∷◌, Bool, true, false, not, ◌&&◌, ◌||◌, Result, ok, err,
  Assoc, lookup, text_eq, ◌==◌, length, if◌then◌else◌,
}
use pg_k8s_proxy.Api.{NamespacedName, name_keys, PostgresRoute}
use pg_k8s_proxy.Registry.Resolve.{ApiError, not_found, conflict}
use pg_k8s_proxy.Registry.Build.{Decision}
use pg_k8s_proxy.Controller.Status.{Condition, RouteStatus, Library, desired_status}

-- A route as it is read: with its status, and whether it has a deletion timestamp.
pub record StoredRoute : Type 0 where
  pub route : PostgresRoute
  pub status : RouteStatus
  pub deleting : Bool

pub record StatusClient : Type 0 where
  pub get_route : NamespacedName → Result ApiError StoredRoute
  pub patch_status : NamespacedName → RouteStatus → Option ApiError

pub data StatusOutcome : Type 0 where
  done : StatusOutcome
  -- `RequeueAfter`, in milliseconds.
  requeue_after : ℕ → StatusOutcome
  failed : ApiError → StatusOutcome

unfoldable pub same_condition : Condition → Condition → Bool
same_condition got want =
    text_eq got.status want.status
    && (text_eq got.reason want.reason
        && (text_eq got.message want.message
            && got.observed_generation == want.observed_generation))

-- The loop over the conditions that are wanted.
unfoldable pub conditions_match : Library → List Condition → List Condition → Bool
conditions_match lib cs [] = true
conditions_match lib cs (want ∷ rest) =
    let more = conditions_match lib cs rest in
    elim (lib.find_status_condition cs want.type) [
      | none ↦ false
      | some got ↦ if same_condition got want then more else false
    ]

unfoldable pub equal_status : Library → RouteStatus → RouteStatus → Bool
equal_status lib a b =
    if not (a.observed_generation == b.observed_generation)
      || (not (text_eq a.database b.database)
          || (not (text_eq a.endpoint b.endpoint)
              || (not (text_eq a.conflicting_route b.conflicting_route)
                  || not (length a.conditions == length b.conditions))))
    then false
    else conditions_match lib a.conditions b.conditions

-- `DefaultDebounce`, in milliseconds.
abbrev pub default_debounce : ℕ
default_debounce = 200

abbrev pub after_patch : Option ApiError → StatusOutcome
after_patch none = done
after_patch (some conflict) = done
after_patch (some e) = failed e

module _ (lib : Library) (client : StatusClient) (decisions : Assoc NamespacedName Decision) where
  -- On a route that was read and a decision for it: the status that is patched, if one is.
  unfoldable pub write_status :
      NamespacedName → StoredRoute → Decision → Option RouteStatus × StatusOutcome
  write_status request o decision =
      let desired = desired_status lib o.route decision o.status in
      if equal_status lib o.status desired
      then (none, done)
      else (some desired, after_patch (client.patch_status request desired))

  -- `Reconcile`.
  unfoldable pub reconcile_status : NamespacedName → Option RouteStatus × StatusOutcome
  reconcile_status request = elim (client.get_route request) [
    | err not_found ↦ (none, done)
    | err e ↦ (none, failed e)
    | ok o ↦ if o.deleting then (none, done) else elim (lookup request decisions) [
      | none ↦ (none, requeue_after (2 * default_debounce))
      | some decision ↦ write_status request o decision
    ]
  ]
