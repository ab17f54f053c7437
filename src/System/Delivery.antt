-- ===== src/System/Delivery.antt =====
-- From the PostgresRoute objects to the backend of a session.
use pg_k8s_proxy.Common.{
  ◌≡◌, refl, sym, ap, ◌∙◌, Bytes, Option, none, some, List, true, false, ok, lookup, bytes_keys,
  is_empty, text_eq_iff, Bool-cases, Result-cases, inl, inr,
}
use pg_k8s_proxy.Api.{PostgresRoute, effective_database, effective_target_database}
use pg_k8s_proxy.Wire.Startup.{StartupPacket, encode}
use pg_k8s_proxy.Registry.Resolve.{Resolver, Route, resolve}
use pg_k8s_proxy.Registry.Resolve.Fields.{resolve-TakesOver}
use pg_k8s_proxy.Registry.Build.Winners.{claims, champion}
use pg_k8s_proxy.Registry.Build.Champion.{Leads, champion-Leads}
use pg_k8s_proxy.Registry.Build.Decisions.{winner_entry, table-build}
use pg_k8s_proxy.Proxy.Cancel.{CancelRegistry}
use pg_k8s_proxy.Proxy.Negotiate.{ServerTls}
use pg_k8s_proxy.Proxy.Relay.{RelayEnd}
use pg_k8s_proxy.Proxy.Dial.{Endpoint, BackendConn, send, closed}
use pg_k8s_proxy.Proxy.Dial.Policy.{IsServing}
use pg_k8s_proxy.Proxy.Session.{World, SessionEnd, handle, requested_database, rewrite_database}
use pg_k8s_proxy.Proxy.Session.Forwarding.{target_of, handle-IsRouted, rewrite-requested_database}
use pg_k8s_proxy.Controller.RouteTable.{Cluster, Builder, Reach}
use pg_k8s_proxy.Controller.RouteTable.Settling.{IsQuiet, quiet_up_to_date}

winner_entry_inv :
    (resolver : Resolver) (domain database : Bytes) (routes : List PostgresRoute)
    (o : Option PostgresRoute) {route : Route}
    → champion database routes ≡ o
    → winner_entry resolver domain o ≡ some route
    → (w : PostgresRoute) × Leads database routes w × (resolve resolver domain w ≡ ok route)
winner_entry_inv resolver domain database routes none c h = absurd (cc h)
winner_entry_inv resolver domain database routes (some w) {route} c h =
    elim (Result-cases (resolve resolver domain w)) [
      | inl (found, e) ↦
          let is : found ≡ route = cc (rw e at h) in
          (w, champion-Leads database routes c, e ∙ ap ok is)
      | inr (x, e) ↦ absurd (cc (rw e at h))
    ]

-- The route's target, for a winner of the database's name.
target_of_winner :
    (route : Route) (database : Bytes) (w : PostgresRoute)
    → claims database w ≡ true
    → route.target_database ≡ effective_target_database w
    → target_of route database ≡ effective_target_database w
unfolding effective_target_database
target_of_winner route database w c t = elim (Bool-cases (is_empty route.target_database)) [
  | inr n ↦ simp n t
  | inl n ↦ elim (Bool-cases (is_empty w.spec.target_database)) [
    | inl e ↦ simp (n, e) (sym ((text_eq_iff (effective_database w) database).0 c))
    | inr e ↦
        let is : route.target_database ≡ w.spec.target_database = simp e at t in
        absurd (cc (sym (ap is_empty is), n, e))
  ]
]

-- A relayed session, from the routes of the cluster to what its backend was sent.
pub record Delivered (world : World) (cluster_domain : Bytes) (cluster : Cluster) (r : SessionEnd)
    : Type 0 where
  pub startup : StartupPacket
  pub database : Bytes
  pub winner : PostgresRoute
  pub route : Route
  pub peer : Endpoint
  pub conn : BackendConn
  pub asked : requested_database startup ≡ some database
  pub leads : Leads database cluster.routes winner
  pub resolved : resolve cluster.resolver cluster_domain winner ≡ ok route
  pub serving : IsServing world.dialer route peer conn
  pub sent :
      r.backend ≡ some (closed (send conn (encode (rewrite_database route database startup))))
  pub target :
      requested_database (rewrite_database route database startup)
      ≡ some (effective_target_database winner)

-- However the changes of the cluster and the rebuilds were interleaved, once nothing is left to do
-- and the latest rebuild did not fail: a session that is relayed goes to a backend that was dialed
-- under the resolution of a PostgresRoute of the cluster as it is now, one that claims the database
-- that the client asks for and that no other claim precedes, and the one packet that the gateway
-- itself sends there asks for the target database of that very route.
pub session-Delivered :
    (world : World) (cluster_domain : Bytes) {cluster : Cluster} {b : Builder}
    (tls : Option ServerTls) (cancels : CancelRegistry) (input : Bytes) {end : RelayEnd}
    → Reach cluster_domain cluster b
    → IsQuiet b
    → b.failed ≡ false
    → (handle world tls b.store.table cancels input).relayed ≡ some end
    → Delivered world cluster_domain b.cluster (handle world tls b.store.table cancels input)
session-Delivered world cluster_domain {b = b} tls cancels input r q f h =
    let s = handle-IsRouted world tls b.store.table cancels input h in
    let current = quiet_up_to_date cluster_domain r q f in
    let entry =
      sym (table-build b.cluster.resolver cluster_domain b.cluster.routes s.database)
      ∙ ap (λ snapshot. lookup s.database snapshot.table) (sym current)
      ∙ s.routed in
    let (w, leads, resolved) =
      winner_entry_inv b.cluster.resolver cluster_domain s.database b.cluster.routes _ refl entry in
    let target =
      target_of_winner s.route s.database w leads.claiming
        (resolve-TakesOver _ _ w resolved).target in
    record {
      startup = s.startup;
      database = s.database;
      winner = w;
      route = s.route;
      peer = s.peer;
      conn = s.conn;
      asked = s.asked;
      leads = leads;
      resolved = resolved;
      serving = s.serving;
      sent = s.sent;
      target = (rewrite-requested_database s.route s.database s.startup s.asked).0 ∙ ap some target;
    }
