-- ===== src/Tests/ClusterTests.antt =====
-- A Service with two ports, and the loop that rebuilds the table when a route appears.
use pg_k8s_proxy.Common.{
  pos, ◌≡◌, refl, Bytes, List, [], ◌∷◌, ok, err, codes, bytes_keys, text_eq, true, false, ◌<◌,
}
use pg_k8s_proxy.Api.{int, string}
use pg_k8s_proxy.Registry.Resolve.{not_found, no_port, port_number_not_found}
use pg_k8s_proxy.Registry.Client.{
  ServicePort, Reader, ClientResolver, parse_digits, parse_uint16, parse_port_number, has_port,
  port_named, choose_port, resolve_service_port, client_resolver,
}
use pg_k8s_proxy.Tests.RegistryTests.{old_route}
use pg_k8s_proxy.Controller.RouteTable.{
  Cluster, Builder, change, schedule, on_trigger, on_timer, publish, snapshot_for, started, deliver,
  take_trigger, fire, finish, works, changes, Reach, start, step,
}
use pg_k8s_proxy.Controller.RouteTable.Settling.{
  IsQuiet, Run, remaining, quiet_up_to_date, settles, work-remaining,
}

abbrev pub two_ports : List ServicePort
two_ports =
    record { name = codes "metrics"; port = pos 9187 }
    ∷ record { name = codes "postgresql"; port = pos 5432 }
    ∷ []

-- Every Service has these ports, and there are no Secrets.
abbrev test_reader : Reader
test_reader = record {
  get_service = λ _ _. ok two_ports;
  get_secret = λ _ _. err not_found;
  has_certificates = λ _. false;
}

abbrev pub test_client : ClientResolver
test_client = record { client = test_reader; ca_bundles = true }

named_port :
    resolve_service_port test_client (codes "apps") (codes "db") (string (codes "postgresql"))
    ≡ ok (pos 5432)
unfolding resolve_service_port choose_port parse_port_number parse_uint16 parse_digits port_named
    text_eq
named_port = refl

-- The same missing port, as a number and in digits, is reported by two different errors.
missing_port :
    (resolve_service_port test_client (codes "apps") (codes "db") (int (pos 80))
      ≡ err (no_port (codes "apps") (codes "db") (pos 80)))
    × (resolve_service_port test_client (codes "apps") (codes "db") (string (codes "80"))
        ≡ err (port_number_not_found (codes "apps") (codes "db") (pos 80)))
unfolding resolve_service_port choose_port parse_port_number parse_uint16 parse_digits has_port
missing_port = (refl, refl)

abbrev pub domain : Bytes
domain = codes "cluster.local"

abbrev test_cluster : Cluster
test_cluster = record { routes = old_route ∷ []; resolver = client_resolver test_client }

-- Before the route appears.
abbrev empty_cluster : Cluster
empty_cluster = record { routes = []; resolver = client_resolver test_client }

abbrev changed : Builder
changed =
    change test_cluster (publish (snapshot_for domain empty_cluster) (started 0 empty_cluster))

changed-Reach : Reach domain empty_cluster changed
unfolding publish
changed-Reach = step (step (start 0) (works (finish refl))) (changes test_cluster)

settles_example :
    (b' : Builder) × Run domain changed (remaining changed) b'
    × IsQuiet b'
    × (b'.store ≡ snapshot_for domain test_cluster)
unfolding change publish
settles_example = settles domain changed changed-Reach refl

abbrev pub rebuilt : Builder
rebuilt = publish (snapshot_for domain test_cluster) (on_timer (on_trigger (schedule 0 changed)))

pub rebuilt-Reach : Reach domain empty_cluster rebuilt
unfolding change schedule on_trigger on_timer publish
rebuilt-Reach =
    step
      (step (step (step changed-Reach (works (deliver 0 refl))) (works (take_trigger refl refl)))
        (works (fire refl refl)))
      (works (finish refl))

quiet_up_to_date_example : rebuilt.store ≡ snapshot_for domain rebuilt.cluster
unfolding change schedule on_trigger on_timer publish
quiet_up_to_date_example =
    quiet_up_to_date domain rebuilt-Reach
      (record { delivered = refl; taken = refl; unset = refl; at_select = refl }) refl

work-remaining_example : remaining (schedule 0 changed) < remaining changed
unfolding change publish
work-remaining_example = work-remaining domain {b = changed} (deliver 0 refl)
