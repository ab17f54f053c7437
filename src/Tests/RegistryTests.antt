-- ===== src/Tests/RegistryTests.antt =====
-- Two routes that claim one database.
use mathlib.Core.List.Perm
use pg_k8s_proxy.Common.{
  ℕ, pos, ◌≡◌, ◌≢◌, refl, Bytes, List, [], ◌∷◌, none, some, err, codes, lookup, bytes_keys, text_eq,
}
use pg_k8s_proxy.Api.{PostgresRoute, key_of, name_keys, name_eq, name_eq_iff, effective_database}
use pg_k8s_proxy.Registry.Resolve.{Resolver, service_unset, secrets_disabled}
use pg_k8s_proxy.Registry.Build.{build, conflict, less}
use pg_k8s_proxy.Registry.Build.Winners.{champion}
use pg_k8s_proxy.Registry.Build.Rounds.{here, HaveDistinctNames}
use pg_k8s_proxy.Registry.Build.Decisions.{winner_entry, decisions-build, table-build}
use pg_k8s_proxy.Registry.Build.Replicas.{build-perm}

abbrev pub route_named : Bytes → ℕ → PostgresRoute
route_named name created = record {
  meta = record {
    namespace = codes "apps";
    name = name;
    generation = 1;
    creation_timestamp = created;
  };
  spec = record {
    database = codes "orders";
    target_database = [];
    backend = record {
      type = codes "Address";
      service = none;
      address = some (record { host = codes "db"; port = pos 0 });
    };
    tls = none;
    priority = pos 100;
  };
}

abbrev pub old_route : PostgresRoute
old_route = route_named (codes "old") 5

abbrev new_route : PostgresRoute
new_route = route_named (codes "new") 9

abbrev pub two_routes : List PostgresRoute
two_routes = new_route ∷ old_route ∷ []

-- No backend of these routes asks the resolver.
abbrev pub no_resolver : Resolver
no_resolver = record {
  resolve_service_port = λ _ _ _. err service_unset;
  load_ca_bundle = λ namespace name _. err (secrets_disabled namespace name);
}

names_differ : key_of old_route ≢ key_of new_route
unfolding name_eq text_eq
names_differ e = absurd (cc ((name_eq_iff (key_of old_route) (key_of new_route)).1 e))

two_routes-HaveDistinctNames : HaveDistinctNames two_routes
two_routes-HaveDistinctNames = ((names_differ, tt), (tt, tt))

old_wins : champion (codes "orders") two_routes ≡ some old_route
unfolding champion less text_eq effective_database
old_wins = refl

decisions-build_example :
    lookup (key_of new_route) (build no_resolver (codes "cluster.local") two_routes).decisions
    ≡ some (conflict (codes "orders") (key_of old_route))
unfolding champion less text_eq effective_database name_eq
decisions-build_example =
    decisions-build no_resolver (codes "cluster.local") two_routes new_route
      two_routes-HaveDistinctNames (here refl)

table-build_example :
    lookup (codes "orders") (build no_resolver (codes "cluster.local") two_routes).table
    ≡ winner_entry no_resolver (codes "cluster.local") (some old_route)
unfolding champion less text_eq effective_database
table-build_example = table-build no_resolver (codes "cluster.local") two_routes (codes "orders")

build-perm_example :
    build no_resolver (codes "cluster.local") two_routes
    ≡ build no_resolver (codes "cluster.local") (old_route ∷ new_route ∷ [])
build-perm_example =
    build-perm no_resolver (codes "cluster.local") two_routes (old_route ∷ new_route ∷ [])
      two_routes-HaveDistinctNames (Perm.swap old_route new_route [])
