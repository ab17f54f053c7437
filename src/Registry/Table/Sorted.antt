-- ===== src/Registry/Table/Sorted.antt =====
-- `sort.Strings`: the order of the result, and that it depends on nothing but the texts.
use mathlib.Core.List.{Permᴰ}
use pg_k8s_proxy.Common.{
  ap₂, text_lt_irrefl, suc, ◌≡◌, refl, ap, ◌∙◌, Bytes, List, [], ◌∷◌, Bool, true, false, ◌||◌,
  bytes_keys, text_eq, text_eq_iff, text_lt, text_lt_trans, text_lt-total, length, All, arith,
  Bool-cases, inl, inr,
}
use pg_k8s_proxy.Api.{name_keys}
use pg_k8s_proxy.Registry.Table.{insert_text, sort_texts}

abbrev pub has_name : Bytes → List Bytes → Bool
has_name n [] = false
has_name n (m ∷ ms) = text_eq m n || has_name n ms

-- In strictly ascending order, so without a name twice.
abbrev pub Ascending : List Bytes → Type 0
Ascending [] = Unit
Ascending (a ∷ bs) = All (λ b. text_lt a b ≡ true) bs × Ascending bs

-- No name twice, in any order.
abbrev pub Unrepeated : List Bytes → Type 0
Unrepeated [] = Unit
Unrepeated (a ∷ bs) = (has_name a bs ≡ false) × Unrepeated bs

has_name-insert_text :
    (n a : Bytes) (l : List Bytes) → has_name n (insert_text a l) ≡ text_eq a n || has_name n l
unfolding insert_text
has_name-insert_text n a [] = refl
has_name-insert_text n a (b ∷ bs) = ground (arith, has_name-insert_text n a bs)

pub has_name-sort_texts : (n : Bytes) (l : List Bytes) → has_name n (sort_texts l) ≡ has_name n l
unfolding sort_texts
has_name-sort_texts n [] = refl
has_name-sort_texts n (a ∷ bs) =
    has_name-insert_text n a (sort_texts bs) ∙ ap (◌||◌ (text_eq a n)) (has_name-sort_texts n bs)

All-insert_text :
    (P : Bytes → Type 0) (a : Bytes) (l : List Bytes) → P a → All P l → All P (insert_text a l)
unfolding insert_text
All-insert_text P a [] h t = (h, tt)
All-insert_text P a (b ∷ bs) h t = elim (Bool-cases (text_lt b a)) [
  | inl e ↦ rw (e, insert_text) (t.0, All-insert_text P a bs h t.1)
  | inr e ↦ rw (e, insert_text) (h, t)
]

below_all :
    (a b : Bytes) (l : List Bytes)
    → text_lt a b ≡ true
    → All (λ c. text_lt b c ≡ true) l
    → All (λ c. text_lt a c ≡ true) l
below_all a b [] h t = tt
below_all a b (c ∷ cs) h t = (text_lt_trans a b c h t.0, below_all a b cs h t.1)

insert_text-Ascending :
    (a : Bytes) (l : List Bytes) → has_name a l ≡ false → Ascending l → Ascending (insert_text a l)
unfolding insert_text
insert_text-Ascending a [] n s = (tt, tt)
insert_text-Ascending a (b ∷ bs) n (t, s) = elim (Bool-cases (text_lt b a)) [
  | inl e ↦
      rw (e, insert_text)
        (
          All-insert_text (λ c. text_lt b c ≡ true) a bs e t,
          insert_text-Ascending a bs (ground arith) s,
        )
  | inr e ↦
      let below : text_lt a b ≡ true = ground (arith, text_lt-total a b, text_eq_iff b a) in
      rw (e, insert_text) ((below, below_all a b bs below t), (t, s))
]

pub sort_texts-Ascending : (l : List Bytes) → Unrepeated l → Ascending (sort_texts l)
unfolding sort_texts
sort_texts-Ascending [] u = tt
sort_texts-Ascending (a ∷ bs) (n, u) =
    insert_text-Ascending a (sort_texts bs) (has_name-sort_texts a bs ∙ n)
      (sort_texts-Ascending bs u)

length-insert_text : (a : Bytes) (l : List Bytes) → length (insert_text a l) ≡ suc (length l)
unfolding insert_text
length-insert_text a [] = refl
length-insert_text a (b ∷ bs) = ground (arith, length-insert_text a bs)

pub length-sort_texts : (l : List Bytes) → length (sort_texts l) ≡ length l
unfolding sort_texts
length-sort_texts [] = refl
length-sort_texts (a ∷ bs) = length-insert_text a (sort_texts bs) ∙ ap suc (length-sort_texts bs)

insert_text_comm :
    (a b : Bytes) (l : List Bytes)
    → insert_text a (insert_text b l) ≡ insert_text b (insert_text a l)
unfolding insert_text
insert_text_comm a b [] = ground (arith, text_lt-total a b, text_lt_trans a b a, text_lt_irrefl a)
insert_text_comm a b (y ∷ l) = ground (
  arith,
  text_lt-total a b,
  text_lt_irrefl a,
  text_lt_trans a b a,
  text_lt_trans y a b,
  text_lt_trans y b a,
  insert_text_comm a b l,
)

pub sort_texts-permᴰ : {l r : List Bytes} → Permᴰ l r → sort_texts l ≡ sort_texts r
unfolding sort_texts
sort_texts-permᴰ Permᴰ.nil = refl
sort_texts-permᴰ (Permᴰ.cons e d) = ap₂ insert_text e (sort_texts-permᴰ d)
sort_texts-permᴰ (Permᴰ.swap {a = a} {b = b} {l = l} e₁ e₂) =
    insert_text_comm a b (sort_texts l)
    ∙ ap₂ insert_text e₂ (ap (λ z. insert_text z (sort_texts l)) e₁)
sort_texts-permᴰ (Permᴰ.trans d₁ d₂) = sort_texts-permᴰ d₁ ∙ sort_texts-permᴰ d₂
