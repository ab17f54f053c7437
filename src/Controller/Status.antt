-- ===== src/Controller/Status.antt =====
-- src/internal/controller/postgresroute_controller.go: what `Reconcile` writes into a route's
-- status for the decision that it finds. The library of conditions, meta.SetStatusCondition and
-- meta.FindStatusCondition, and the formatting of names and errors are given.
pub mod Conditions
pub mod Writing
pub mod Repeats
use pg_k8s_proxy.Common.{
  ℕ, Bytes, Option, none, some, List, [], ◌∷◌, ◌++◌, Bool, true, false, not, ◌||◌, codes, text_eq,
  if◌then◌else◌, ◌≡◌, length,
}
use pg_k8s_proxy.Api.{NamespacedName, PostgresRoute}
use pg_k8s_proxy.Registry.Resolve.{
  ApiError, ResolveError, is_backend_not_found, is_port_not_found, is_ca_bundle, is_not_found,
}
use pg_k8s_proxy.Registry.Errors.{error_text}
use pg_k8s_proxy.Registry.Build.{Decision, programmed}

-- `metav1.Condition` without the time of its last transition.
pub record Condition : Type 0 where
  pub type : Bytes
  pub status : Bytes
  pub reason : Bytes
  pub message : Bytes
  pub observed_generation : ℕ

pub record RouteStatus : Type 0 where
  pub observed_generation : ℕ
  pub database : Bytes
  pub endpoint : Bytes
  pub conflicting_route : Bytes
  pub conditions : List Condition

pub record Library : Type 0 where
  pub set_status_condition : List Condition → Condition → List Condition
  pub find_status_condition : List Condition → Bytes → Option Condition
  -- The verb `%q`, and `Error` of an error of the API.
  pub quote : Bytes → Bytes
  pub api_text : ApiError → Bytes

-- What is documented of the two: the condition of a type is the one that was set last.
pub record IsLawful (lib : Library) : Type 0 where
  pub find-set :
      (cs : List Condition) (c : Condition) (t : Bytes)
      → lib.find_status_condition (lib.set_status_condition cs c) t
        ≡ (if text_eq c.type t then some c else lib.find_status_condition cs t)

abbrev pub condition_accepted : Bytes
condition_accepted = codes "Accepted"

abbrev pub condition_resolved : Bytes
condition_resolved = codes "Resolved"

abbrev pub condition_programmed : Bytes
condition_programmed = codes "Programmed"

-- The reasons.
abbrev reason_accepted : Bytes
reason_accepted = codes "Accepted"

abbrev reason_database_conflict : Bytes
reason_database_conflict = codes "DatabaseNameConflict"

abbrev reason_resolved : Bytes
reason_resolved = codes "Resolved"

abbrev pub reason_backend_not_found : Bytes
reason_backend_not_found = codes "BackendNotFound"

abbrev pub reason_port_not_found : Bytes
reason_port_not_found = codes "PortNotFound"

abbrev pub reason_invalid_backend : Bytes
reason_invalid_backend = codes "InvalidBackend"

abbrev pub reason_ca_bundle_failed : Bytes
reason_ca_bundle_failed = codes "CABundleUnavailable"

abbrev reason_programmed : Bytes
reason_programmed = codes "Programmed"

abbrev reason_not_programmed : Bytes
reason_not_programmed = codes "NotProgrammed"

abbrev pub status_of : Bool → Bytes
status_of true = codes "True"
status_of false = codes "False"

abbrev pub string_of : NamespacedName → Bytes
string_of n = n.namespace ++ (b'/' ∷ n.name)

unfoldable pub resolve_failure_reason : ResolveError → Bytes
resolve_failure_reason e =
    if is_backend_not_found e || is_not_found e
    then reason_backend_not_found
    else if is_port_not_found e
    then reason_port_not_found
    else if is_ca_bundle e
    then reason_ca_bundle_failed
    else reason_invalid_backend

module _ (lib : Library) (generation : ℕ) (d : Decision) where
  abbrev pub accepted_condition : Condition
  accepted_condition = record {
    type = condition_accepted;
    status = status_of d.accepted;
    reason = if d.accepted then reason_accepted else reason_database_conflict;
    message =
        if d.accepted
        then codes "This route owns the database name " ++ (lib.quote d.database ++ codes ".")
        else codes "Database name "
          ++ (lib.quote d.database
              ++ (codes " is already claimed by "
                  ++ (string_of d.conflicts_with
                      ++ codes ", which has a higher priority or is older.")));
    observed_generation = generation;
  }

  abbrev pub resolved_with : Bool → Bytes → Bytes → Condition
  resolved_with status reason message = record {
    type = condition_resolved;
    status = status_of status;
    reason = reason;
    message = message;
    observed_generation = generation;
  }

  -- The `switch`.
  abbrev pub resolved_condition : Condition
  resolved_condition =
      if not d.accepted
      then resolved_with false reason_database_conflict
          (codes "The backend was not resolved because the route did not win its database name.")
      else elim d.resolve_err [
        | some e ↦
            resolved_with false (resolve_failure_reason e) (error_text lib.quote lib.api_text e)
        | none ↦
            resolved_with true reason_resolved
              (codes "The backend resolved to " ++ (d.endpoint ++ codes "."))
      ]

  abbrev pub programmed_condition : Condition
  programmed_condition = record {
    type = condition_programmed;
    status = status_of (programmed d);
    reason = if programmed d then reason_programmed else reason_not_programmed;
    message =
        if programmed d
        then codes "Connections to database "
          ++ (lib.quote d.database ++ (codes " are routed to " ++ (d.endpoint ++ codes ".")))
        else codes "The gateway is not routing connections for this route.";
    observed_generation = generation;
  }

  abbrev set_all : List Condition → List Condition
  set_all cs =
      lib.set_status_condition
        (lib.set_status_condition (lib.set_status_condition cs accepted_condition)
          resolved_condition)
        programmed_condition

  unfoldable pub apply_conditions : RouteStatus → RouteStatus
  apply_conditions s = record s {
    conflicting_route = if d.accepted then s.conflicting_route else string_of d.conflicts_with;
    endpoint = if d.accepted then s.endpoint else [];
    conditions = set_all s.conditions;
  }

-- `desired` in `Reconcile`.
unfoldable pub desired_status : Library → PostgresRoute → Decision → RouteStatus → RouteStatus
desired_status lib route d status = apply_conditions lib route.meta.generation d (record status {
  observed_generation = route.meta.generation;
  database = d.database;
  endpoint = d.endpoint;
  conflicting_route = [];
})
