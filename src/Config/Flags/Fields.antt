-- ===== src/Config/Flags/Fields.antt =====
-- The flags, one by one: which of them writes a setting that the environment reaches too.
use pg_k8s_proxy.Common.{
  ◌≡◌, refl, sym, ap, ◌∙◌, Bytes, Option, none, some, List, Bool, codes, text_eq, All, inl, inr,
}
use pg_k8s_proxy.Config.{Settings}
use pg_k8s_proxy.Config.Flags.{FlagTypes, text_var, bind_flags}
use pg_k8s_proxy.Config.Flags.Wins.{
  IsOwn, Writes, some_inj, text_var-Leaves, parsed_var-Leaves, slice_var-Leaves,
}

-- A later value replaces an earlier one.
abbrev pub replace : Bool → Bytes → Bytes → Option Bytes
replace seen text old = some text

-- The head and the rest of what holds of a list.
infixr 4 ◌⊗◌
◌⊗◌ : {A B : Type 0} → A → B → A × B
a ⊗ b = (a, b)

replaces :
    (get : Settings → Bytes) (put : Bytes → Settings → Settings)
    → ((v : Bytes) (c : Settings) → get (put v c) ≡ v)
    → Writes get replace (text_var put)
replaces get put same seen text c c' h = ap some (sym (same text c) ∙ ap get (some_inj h))

slice_value :
    (o : Option (List Bytes)) (c : Settings) {c' : Settings}
    → elim o [
      | none ↦ none
      | some v ↦ some (record c { watch = record (c.watch) { namespaces = v } })
    ]
      ≡ some c'
    → o ≡ some c'.watch.namespaces
slice_value none c h = absurd (cc h)
slice_value (some v) c h = ap (λ x. some x.watch.namespaces) (some_inj h)

module _ (t : FlagTypes) where
  pub bind_alone :
      All (IsOwn (codes "proxy-bind-address") (λ c. c.proxy.bind_address) replace) (bind_flags t)
  unfolding bind_flags text_eq
  bind_alone =
      let get : Settings → Bytes = λ c. c.proxy.bind_address in
      inr (refl, text_var-Leaves get _ (λ v c. refl))
      ⊗ inl (refl, replaces get _ (λ v c. refl))
      ⊗ inr (refl, parsed_var-Leaves get t.parse_int _ (λ v c. refl))
      ⊗ inr (refl, parsed_var-Leaves get t.parse_duration _ (λ v c. refl))
      ⊗ inr (refl, parsed_var-Leaves get t.parse_duration _ (λ v c. refl))
      ⊗ inr (refl, parsed_var-Leaves get t.parse_duration _ (λ v c. refl))
      ⊗ inr (refl, parsed_var-Leaves get t.parse_duration _ (λ v c. refl))
      ⊗ inr (refl, text_var-Leaves get _ (λ v c. refl))
      ⊗ inr (refl, text_var-Leaves get _ (λ v c. refl))
      ⊗ inr (refl, text_var-Leaves get _ (λ v c. refl))
      ⊗ inr (refl, text_var-Leaves get _ (λ v c. refl))
      ⊗ inr (refl, slice_var-Leaves get t _ _ (λ v c. refl))
      ⊗ inr (refl, text_var-Leaves get _ (λ v c. refl))
      ⊗ inr (refl, parsed_var-Leaves get t.parse_bool _ (λ v c. refl))
      ⊗ inr (refl, parsed_var-Leaves get t.parse_bool _ (λ v c. refl))
      ⊗ inr (refl, text_var-Leaves get _ (λ v c. refl))
      ⊗ inr (refl, text_var-Leaves get _ (λ v c. refl))
      ⊗ inr (refl, parsed_var-Leaves get t.parse_bool _ (λ v c. refl))
      ⊗ inr (refl, text_var-Leaves get _ (λ v c. refl))
      ⊗ inr (refl, text_var-Leaves get _ (λ v c. refl))
      ⊗ inr (refl, parsed_var-Leaves get t.parse_duration _ (λ v c. refl))
      ⊗ inr (refl, parsed_var-Leaves get t.parse_duration _ (λ v c. refl))
      ⊗ inr (refl, parsed_var-Leaves get t.parse_duration _ (λ v c. refl))
      ⊗ inr (refl, text_var-Leaves get _ (λ v c. refl))
      ⊗ inr (refl, text_var-Leaves get _ (λ v c. refl))
      ⊗ inr (refl, text_var-Leaves get _ (λ v c. refl))
      ⊗ inr (refl, text_var-Leaves get _ (λ v c. refl))
      ⊗ tt

  pub health_alone :
      All (IsOwn (codes "health-bind-address") (λ c. c.health_bind_address) replace) (bind_flags t)
  unfolding bind_flags text_eq
  health_alone =
      let get : Settings → Bytes = λ c. c.health_bind_address in
      inr (refl, text_var-Leaves get _ (λ v c. refl))
      ⊗ inr (refl, text_var-Leaves get _ (λ v c. refl))
      ⊗ inr (refl, parsed_var-Leaves get t.parse_int _ (λ v c. refl))
      ⊗ inr (refl, parsed_var-Leaves get t.parse_duration _ (λ v c. refl))
      ⊗ inr (refl, parsed_var-Leaves get t.parse_duration _ (λ v c. refl))
      ⊗ inr (refl, parsed_var-Leaves get t.parse_duration _ (λ v c. refl))
      ⊗ inr (refl, parsed_var-Leaves get t.parse_duration _ (λ v c. refl))
      ⊗ inr (refl, text_var-Leaves get _ (λ v c. refl))
      ⊗ inr (refl, text_var-Leaves get _ (λ v c. refl))
      ⊗ inr (refl, text_var-Leaves get _ (λ v c. refl))
      ⊗ inr (refl, text_var-Leaves get _ (λ v c. refl))
      ⊗ inr (refl, slice_var-Leaves get t _ _ (λ v c. refl))
      ⊗ inr (refl, text_var-Leaves get _ (λ v c. refl))
      ⊗ inr (refl, parsed_var-Leaves get t.parse_bool _ (λ v c. refl))
      ⊗ inr (refl, parsed_var-Leaves get t.parse_bool _ (λ v c. refl))
      ⊗ inr (refl, text_var-Leaves get _ (λ v c. refl))
      ⊗ inr (refl, text_var-Leaves get _ (λ v c. refl))
      ⊗ inr (refl, parsed_var-Leaves get t.parse_bool _ (λ v c. refl))
      ⊗ inr (refl, text_var-Leaves get _ (λ v c. refl))
      ⊗ inr (refl, text_var-Leaves get _ (λ v c. refl))
      ⊗ inr (refl, parsed_var-Leaves get t.parse_duration _ (λ v c. refl))
      ⊗ inr (refl, parsed_var-Leaves get t.parse_duration _ (λ v c. refl))
      ⊗ inr (refl, parsed_var-Leaves get t.parse_duration _ (λ v c. refl))
      ⊗ inl (refl, replaces get _ (λ v c. refl))
      ⊗ inr (refl, text_var-Leaves get _ (λ v c. refl))
      ⊗ inr (refl, text_var-Leaves get _ (λ v c. refl))
      ⊗ inr (refl, text_var-Leaves get _ (λ v c. refl))
      ⊗ tt

  pub selector_alone :
      All
        (IsOwn (codes "service-discovery-selector") (λ c. c.discovery.label_selector) replace)
        (bind_flags t)
  unfolding bind_flags text_eq
  selector_alone =
      let get : Settings → Bytes = λ c. c.discovery.label_selector in
      inr (refl, text_var-Leaves get _ (λ v c. refl))
      ⊗ inr (refl, text_var-Leaves get _ (λ v c. refl))
      ⊗ inr (refl, parsed_var-Leaves get t.parse_int _ (λ v c. refl))
      ⊗ inr (refl, parsed_var-Leaves get t.parse_duration _ (λ v c. refl))
      ⊗ inr (refl, parsed_var-Leaves get t.parse_duration _ (λ v c. refl))
      ⊗ inr (refl, parsed_var-Leaves get t.parse_duration _ (λ v c. refl))
      ⊗ inr (refl, parsed_var-Leaves get t.parse_duration _ (λ v c. refl))
      ⊗ inr (refl, text_var-Leaves get _ (λ v c. refl))
      ⊗ inr (refl, text_var-Leaves get _ (λ v c. refl))
      ⊗ inr (refl, text_var-Leaves get _ (λ v c. refl))
      ⊗ inr (refl, text_var-Leaves get _ (λ v c. refl))
      ⊗ inr (refl, slice_var-Leaves get t _ _ (λ v c. refl))
      ⊗ inr (refl, text_var-Leaves get _ (λ v c. refl))
      ⊗ inr (refl, parsed_var-Leaves get t.parse_bool _ (λ v c. refl))
      ⊗ inr (refl, parsed_var-Leaves get t.parse_bool _ (λ v c. refl))
      ⊗ inl (refl, replaces get _ (λ v c. refl))
      ⊗ inr (refl, text_var-Leaves get _ (λ v c. refl))
      ⊗ inr (refl, parsed_var-Leaves get t.parse_bool _ (λ v c. refl))
      ⊗ inr (refl, text_var-Leaves get _ (λ v c. refl))
      ⊗ inr (refl, text_var-Leaves get _ (λ v c. refl))
      ⊗ inr (refl, parsed_var-Leaves get t.parse_duration _ (λ v c. refl))
      ⊗ inr (refl, parsed_var-Leaves get t.parse_duration _ (λ v c. refl))
      ⊗ inr (refl, parsed_var-Leaves get t.parse_duration _ (λ v c. refl))
      ⊗ inr (refl, text_var-Leaves get _ (λ v c. refl))
      ⊗ inr (refl, text_var-Leaves get _ (λ v c. refl))
      ⊗ inr (refl, text_var-Leaves get _ (λ v c. refl))
      ⊗ inr (refl, text_var-Leaves get _ (λ v c. refl))
      ⊗ tt

  pub namespaces_alone :
      All (IsOwn (codes "watch-namespaces") (λ c. c.watch.namespaces) t.set_slice) (bind_flags t)
  unfolding bind_flags text_eq
  namespaces_alone =
      let get : Settings → List Bytes = λ c. c.watch.namespaces in
      inr (refl, text_var-Leaves get _ (λ v c. refl))
      ⊗ inr (refl, text_var-Leaves get _ (λ v c. refl))
      ⊗ inr (refl, parsed_var-Leaves get t.parse_int _ (λ v c. refl))
      ⊗ inr (refl, parsed_var-Leaves get t.parse_duration _ (λ v c. refl))
      ⊗ inr (refl, parsed_var-Leaves get t.parse_duration _ (λ v c. refl))
      ⊗ inr (refl, parsed_var-Leaves get t.parse_duration _ (λ v c. refl))
      ⊗ inr (refl, parsed_var-Leaves get t.parse_duration _ (λ v c. refl))
      ⊗ inr (refl, text_var-Leaves get _ (λ v c. refl))
      ⊗ inr (refl, text_var-Leaves get _ (λ v c. refl))
      ⊗ inr (refl, text_var-Leaves get _ (λ v c. refl))
      ⊗ inr (refl, text_var-Leaves get _ (λ v c. refl))
      ⊗ inl (refl, λ seen x c c' h. slice_value (t.set_slice seen x (get c)) c h)
      ⊗ inr (refl, text_var-Leaves get _ (λ v c. refl))
      ⊗ inr (refl, parsed_var-Leaves get t.parse_bool _ (λ v c. refl))
      ⊗ inr (refl, parsed_var-Leaves get t.parse_bool _ (λ v c. refl))
      ⊗ inr (refl, text_var-Leaves get _ (λ v c. refl))
      ⊗ inr (refl, text_var-Leaves get _ (λ v c. refl))
      ⊗ inr (refl, parsed_var-Leaves get t.parse_bool _ (λ v c. refl))
      ⊗ inr (refl, text_var-Leaves get _ (λ v c. refl))
      ⊗ inr (refl, text_var-Leaves get _ (λ v c. refl))
      ⊗ inr (refl, parsed_var-Leaves get t.parse_duration _ (λ v c. refl))
      ⊗ inr (refl, parsed_var-Leaves get t.parse_duration _ (λ v c. refl))
      ⊗ inr (refl, parsed_var-Leaves get t.parse_duration _ (λ v c. refl))
      ⊗ inr (refl, text_var-Leaves get _ (λ v c. refl))
      ⊗ inr (refl, text_var-Leaves get _ (λ v c. refl))
      ⊗ inr (refl, text_var-Leaves get _ (λ v c. refl))
      ⊗ inr (refl, text_var-Leaves get _ (λ v c. refl))
      ⊗ tt
