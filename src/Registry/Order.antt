-- ===== src/Registry/Order.antt =====
-- Laws of `less` as an order of routes.
use pg_k8s_proxy.Common.{
  ◌≡◌, true, false, Bytes, text_lt, text_eq_iff, text_lt_irrefl, text_lt_trans, text_lt-total,
  arith, Bool-cases, inl, inr,
}
use pg_k8s_proxy.Api.{PostgresRoute, key_of}
use pg_k8s_proxy.Registry.Build.{less}

pub less_irrefl : (a : PostgresRoute) → less a a ≡ false
unfolding less
less_irrefl a =
    ground (arith, text_eq_iff a.meta.namespace a.meta.namespace, text_lt_irrefl a.meta.name)

pub less_trans : (a b c : PostgresRoute) → less a b ≡ true → less b c ≡ true → less a c ≡ true
unfolding less
less_trans a b c h k = ground (
  arith,
  text_eq_iff a.meta.namespace b.meta.namespace,
  text_eq_iff b.meta.namespace c.meta.namespace,
  text_eq_iff a.meta.namespace c.meta.namespace,
  text_lt_trans a.meta.namespace b.meta.namespace c.meta.namespace,
  text_lt_irrefl a.meta.namespace,
  text_lt_trans a.meta.name b.meta.name c.meta.name,
)

-- Routes that neither precedes have one name.
pub less-total : (a b : PostgresRoute) → less a b ≡ false → less b a ≡ false → key_of a ≡ key_of b
unfolding less
less-total a b h k = ground (
  arith,
  text_eq_iff a.meta.namespace b.meta.namespace,
  text_eq_iff b.meta.namespace a.meta.namespace,
  text_lt-total a.meta.namespace b.meta.namespace,
  text_lt-total a.meta.name b.meta.name,
)

text_lt-neg_trans :
    (a b c : Bytes) → text_lt b a ≡ false → text_lt c b ≡ false → text_lt c a ≡ false
text_lt-neg_trans a b c h k = elim (Bool-cases (text_lt c a)) [
  | inr f ↦ f
  | inl t ↦ elim (Bool-cases (text_lt a b)) [
    | inl u ↦ ground (arith, text_lt_trans c a b t u)
    | inr u ↦ ground (arith, text_lt-total a b u h)
  ]
]

-- Not to be preceded is transitive, so sorting by `less` is well defined.
pub less-neg_trans :
    (a b c : PostgresRoute) → less b a ≡ false → less c b ≡ false → less c a ≡ false
unfolding less
less-neg_trans a b c h k = ground (
  arith,
  text_eq_iff b.meta.namespace a.meta.namespace,
  text_eq_iff c.meta.namespace b.meta.namespace,
  text_eq_iff c.meta.namespace a.meta.namespace,
  text_lt-neg_trans a.meta.namespace b.meta.namespace c.meta.namespace,
  text_lt-total a.meta.namespace b.meta.namespace,
  text_lt-total b.meta.namespace c.meta.namespace,
  text_lt-total a.meta.namespace c.meta.namespace,
  text_lt_irrefl a.meta.namespace,
  text_lt-neg_trans a.meta.name b.meta.name c.meta.name,
)

pub less-asymm : (a b : PostgresRoute) → less a b ≡ true → less b a ≡ false
less-asymm a b h = elim (Bool-cases (less b a)) [
  | inl t ↦ ground (arith, less_trans a b a h t, less_irrefl a)
  | inr f ↦ f
]
