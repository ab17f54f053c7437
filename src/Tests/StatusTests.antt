-- ===== src/Tests/StatusTests.antt =====
-- The status of a route that lost its name, with a library that keeps the newest condition first.
use pg_k8s_proxy.Common.{
  ◌≡◌, refl, Bytes, Option, none, some, List, [], ◌∷◌, codes, text_eq, if◌then◌else◌,
}
use pg_k8s_proxy.Registry.Resolve.{
  ca_bundle, reading_secret, not_found, is_backend_not_found, is_not_found,
}
use pg_k8s_proxy.Api.{name_keys}
use pg_k8s_proxy.Controller.Status.{
  Condition, RouteStatus, Library, IsLawful, resolve_failure_reason,
}

abbrev pub newest : List Condition → Bytes → Option Condition
newest [] t = none
newest (c ∷ cs) t = if text_eq c.type t then some c else newest cs t

abbrev pub test_library : Library
test_library = record {
  set_status_condition = λ cs c. c ∷ cs;
  find_status_condition = newest;
  quote = λ s. s;
  api_text = λ _. codes "error";
}

pub test_library-IsLawful : IsLawful test_library
test_library-IsLawful = record { find-set = λ cs c t. refl }

abbrev pub no_status : RouteStatus
no_status = record {
  observed_generation = 0;
  database = [];
  endpoint = codes "stale:5432";
  conflicting_route = [];
  conditions = [];
}

-- A Secret that does not exist is reported as a missing backend.
missing_secret :
    resolve_failure_reason (ca_bundle (reading_secret (codes "apps") (codes "ca") not_found))
    ≡ codes "BackendNotFound"
unfolding resolve_failure_reason is_backend_not_found is_not_found
missing_secret = refl
