-- ===== src/Tests/ProxyTests.antt =====
-- Sessions with a backend that offers TLS, cancellation keys, and the accept loop's delays.
use pg_k8s_proxy.Common.{
  pos, ◌≡◌, refl, Bytes, [], ◌∷◌, ◌+◌, none, some, codes, lookup, insert, bytes_keys, ◌^◌, ◌⊎◌,
  List,
}
use pg_k8s_proxy.Api.{tls_verify_full}
use pg_k8s_proxy.Wire.Startup.{CancelRequest, encode_backend_key_data}
use pg_k8s_proxy.Registry.Resolve.{Route}
use pg_k8s_proxy.Proxy.Cancel.{
  CancelEntry, CancelRegistry, cancel_keys, key_eq, random_cancel_key, issue,
}
use pg_k8s_proxy.Proxy.Cancel.Issue.{Issued, AreTaken, keys_of, issue-Issued}
use pg_k8s_proxy.Proxy.Backoff.{backoff_after, backoff_after_lem}
use pg_k8s_proxy.Proxy.Relay.{all, relay_from_backend, entry_for}
use pg_k8s_proxy.Proxy.Relay.Keys.{relay_from_backend_spares}

abbrev pub test_route : Route
test_route = record {
  source = record { namespace = codes "apps"; name = codes "orders" };
  database = codes "orders";
  target_database = codes "orders_v2";
  host = codes "db";
  port = pos 5432;
  tls = record { mode = tls_verify_full; root_cas = none; server_name = [] };
}

abbrev pub backend_key : CancelRequest
backend_key = record { process_id = 77; secret_key = 4000000000 }

abbrev pub test_entry : CancelEntry
test_entry = entry_for test_route backend_key

abbrev pub first_draw : Bytes
first_draw = 129 ∷ 0 ∷ 0 ∷ 1 ∷ 0 ∷ 0 ∷ 0 ∷ 9 ∷ []

abbrev pub second_draw : Bytes
second_draw = 0 ∷ 0 ∷ 0 ∷ 2 ∷ 0 ∷ 0 ∷ 0 ∷ 9 ∷ []

-- The first draw's sign bit is cleared.
abbrev first_key : CancelRequest
first_key = record { process_id = 2 ^ 24 + 1; secret_key = 9 }

abbrev pub one_session : CancelRegistry
one_session = (first_key, test_entry) ∷ []

abbrev pub second_key : CancelRequest
second_key = record { process_id = 2; secret_key = 9 }

abbrev pub two_sessions : CancelRegistry
two_sessions = (first_key, test_entry) ∷ (second_key, test_entry) ∷ []

-- The first draw is taken, so the second is.
pub issued :
    issue (first_draw ∷ second_draw ∷ []) test_entry one_session
    ≡ some (second_key, two_sessions, [])
unfolding issue random_cancel_key key_eq lookup insert
issued = refl

-- It does return: the second draw is not taken.
issue-Issued_example :
    (AreTaken one_session (keys_of (first_draw ∷ second_draw ∷ []))
      × (issue (first_draw ∷ second_draw ∷ []) test_entry one_session ≡ none))
    ⊎ ((key : CancelRequest) × (after : CancelRegistry) × (left : List Bytes) × (issue
            (first_draw ∷ second_draw ∷ [])
            test_entry
            one_session
          ≡ some (key, after, left))
        × Issued test_entry one_session after key)
issue-Issued_example = issue-Issued (first_draw ∷ second_draw ∷ []) test_entry one_session

backoff_after_lem_example : backoff_after 3 ≡ 40000000
backoff_after_lem_example = backoff_after_lem 3

key_found : lookup first_key one_session ≡ some test_entry
unfolding lookup key_eq
key_found = refl

relay_from_backend_spares_example :
    lookup first_key
      (relay_from_backend test_route
        (λ _. all)
        all
        one_session
        (first_draw ∷ second_draw ∷ [])
        (encode_backend_key_data backend_key)).1
    ≡ some test_entry
relay_from_backend_spares_example =
    relay_from_backend_spares test_route (λ _. all) all first_key test_entry one_session
      (first_draw ∷ second_draw ∷ []) (encode_backend_key_data backend_key) key_found
