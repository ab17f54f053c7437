-- ===== src/Registry/Resolve/Fields.antt =====
-- What `resolve` takes over from a PostgresRoute.
use pg_k8s_proxy.Common.{◌≡◌, sym, ap, Bytes, ok, bind-eq-ok, ok_inj}
use pg_k8s_proxy.Api.{PostgresRoute, key_of, effective_database, effective_target_database}
use pg_k8s_proxy.Registry.Resolve.{Resolver, Route, resolve, resolve_backend, resolve_tls}

pub record TakesOver (w : PostgresRoute) (route : Route) : Type 0 where
  pub source : route.source ≡ key_of w
  pub database : route.database ≡ effective_database w
  pub target : route.target_database ≡ effective_target_database w

pub resolve-TakesOver :
    (resolver : Resolver) (domain : Bytes) (w : PostgresRoute) {route : Route}
    → resolve resolver domain w ≡ ok route
    → TakesOver w route
unfolding resolve
resolve-TakesOver resolver domain w {route} h =
    let (place, b, h1) = bind-eq-ok (resolve_backend resolver domain w) _ h in
    let (tls, t, h2) = bind-eq-ok (resolve_tls resolver w.meta.namespace w.spec.tls) _ h1 in
    let is = ok_inj h2 in
    record {
      source = sym (ap (λ x. x.source) is);
      database = sym (ap (λ x. x.database) is);
      target = sym (ap (λ x. x.target_database) is);
    }
