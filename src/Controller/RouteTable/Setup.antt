-- ===== src/Controller/RouteTable/Setup.antt =====
-- src/internal/controller/routetable.go: `SetupWithManager` of the builder, up to the registration.
use pg_k8s_proxy.Common.{
  ℤ, pos, Bytes, Bool, not, Result, ok, fail_if, ◌>>◌, is_empty, ltb_ℤ, if◌then◌else◌,
}

pub data BuilderError : Type 0 where
  store_required cluster_domain_required : BuilderError

-- The builder's fields that are checked or defaulted; times are in milliseconds.
pub record BuilderConfig : Type 0 where
  pub has_store : Bool
  pub cluster_domain : Bytes
  pub watch_secrets : Bool
  pub debounce : ℤ

-- `DefaultDebounce` where there is none. The resolver, where none is given, loads CA bundles
-- exactly if Secrets are watched.
pub record BuilderReady : Type 0 where
  pub cluster_domain : Bytes
  pub ca_bundles : Bool
  pub debounce : ℤ

unfoldable pub setup_builder : BuilderConfig → Result BuilderError BuilderReady
setup_builder b = do
  fail_if (not b.has_store) store_required
  fail_if (is_empty b.cluster_domain) cluster_domain_required
  ok (record {
    cluster_domain = b.cluster_domain;
    ca_bundles = b.watch_secrets;
    debounce = (if ltb_ℤ (pos 0) b.debounce then b.debounce else pos 200);
  })
