-- ===== src/Tests/AdoptionTests.antt =====
-- A Service that discovery adopts, and a route that overrides its.
use pg_k8s_proxy.Common.{
  ◌≡◌, ◌≢◌, refl, inr, [], ◌∷◌, some, pos, codes, lookup, text_eq, List, bytes_keys,
}
use pg_k8s_proxy.Api.{PostgresRoute, name_keys, key_of, name_eq, name_eq_iff, effective_database}
use pg_k8s_proxy.Registry.Build.{build}
use pg_k8s_proxy.Registry.Build.Rounds.{here, there, HaveDistinctNames}
use pg_k8s_proxy.Registry.Table.{table_lookup}
use pg_k8s_proxy.Registry.Client.{client_resolver}
use pg_k8s_proxy.Controller.Services.{database_name}
use pg_k8s_proxy.Controller.Discovery.{
  done, generated_key, new_object, reconcile, reconcile_service, mutate,
}
use pg_k8s_proxy.Controller.Discovery.Stable.{owned}
use pg_k8s_proxy.Tests.DiscoveryTests.{
  test_service, test_reconciler, test_reconciler-IsLawful, in_scope_test,
}
use pg_k8s_proxy.Tests.ClusterTests.{test_client, domain}
use pg_k8s_proxy.System.Adoption.{adopted, service_route, Adopted, reconcile-Adopted}
use pg_k8s_proxy.System.Overriding.{IsOverridden, overrides_generated}

abbrev adopted_route : PostgresRoute
adopted_route = adopted test_reconciler test_service 1 0

adopts_new : (reconcile test_reconciler test_service.key []).0 ≡ done
unfolding reconcile reconcile_service mutate lookup text_eq
adopts_new = refl

reconcile-Adopted_example :
    (lookup (generated_key test_service) (reconcile test_reconciler test_service.key []).1
      ≡ some (owned test_reconciler test_service new_object))
    × Adopted
        (table_lookup
          (build (client_resolver test_client) domain (adopted_route ∷ [])).table
          (database_name test_reconciler.database_annotation test_service))
        (service_route test_reconciler domain test_service)
        test_service
unfolding lookup
reconcile-Adopted_example =
    reconcile-Adopted test_reconciler test_client domain test_service [] 1 0 (adopted_route ∷ [])
      test_reconciler-IsLawful refl in_scope_test refl adopts_new refl refl refl refl (here refl)
      (inr refl, tt)

abbrev written_route : PostgresRoute
written_route = record {
  meta = record (adopted_route.meta) { name = codes "mine" };
  spec = record (adopted_route.spec) { priority = pos 0 };
}

abbrev both_routes : List PostgresRoute
both_routes = adopted_route ∷ written_route ∷ []

names_apart : key_of written_route ≢ key_of adopted_route
unfolding name_eq text_eq
names_apart e = absurd (cc ((name_eq_iff (key_of written_route) (key_of adopted_route)).1 e))

both_routes-HaveDistinctNames : HaveDistinctNames both_routes
both_routes-HaveDistinctNames = ((names_apart, tt), (tt, tt))

overrides_generated_example :
    IsOverridden (client_resolver test_client) domain both_routes adopted_route
unfolding lookup effective_database database_name text_eq
overrides_generated_example =
    overrides_generated (client_resolver test_client) domain both_routes test_reconciler
      test_service adopted_route written_route both_routes-HaveDistinctNames (here refl) refl refl
      (there (here refl)) refl refl
