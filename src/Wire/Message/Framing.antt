-- ===== src/Wire/Message/Framing.antt =====
-- `Next` and `Encode` against one another.
use pg_k8s_proxy.Common.{
  ℕ, ◌+◌, ◌-◌, ◌%◌, ◌^◌, ◌≤◌, ◌≡◌, refl, sym, ap, subst, ◌∙◌, [], ◌∷◌, ◌++◌, Bytes, ok, length,
  drop, append_assoc, arith, le→ltb, ltb→le, ltb, bind-eq-ok, Result, err, fail_if_inv,
  wrap_err_inv, All-append_inv,
}
use pg_k8s_proxy.Wire.Io.{
  IsBytes, read_full, read_full-append, read_full_splits, uint32, put_uint32, uint32-put_uint32,
  put_uint32-uint32, WireError,
}
use pg_k8s_proxy.Wire.Message.{
  Message, max_message_length, encode_message, next_body, next_message, type_byte,
}

-- A message that was encoded is read back whole, and the reader takes no byte behind it, if the
-- body and the four bytes of the length are within the limit of 1 MiB.
pub next_message-encode_message :
    (m : Message) (rest : Bytes)
    → length m.body + 4 ≤ max_message_length
    → next_message (encode_message m ++ rest) ≡ ok (m, rest)
unfolding next_message encode_message
next_message-encode_message m rest h =
    let n = length m.body + 4 in
    let small : n % 2 ^ 32 ≡ n = omega arith in
    rw (
      small,
      read_full-append 5 (m.type ∷ put_uint32 n) (m.body ++ rest) refl,
      uint32-put_uint32 n [] (omega arith),
      le→ltb n 4 (omega arith),
      le→ltb (2 ^ 20) n h,
      read_full-append (n - 4) m.body rest (omega arith),
    )

-- A header of five bytes that announces the body behind it.
header_encodes :
    (h body : Bytes)
    → length h ≡ 5
    → IsBytes h
    → uint32 (drop 1 h) ≡ length body + 4
    → length body + 4 ≤ max_message_length
    → h ++ body ≡ encode_message (record { type = type_byte h; body = body })
unfolding encode_message
header_encodes [] body l i u n = absurd (omega arith)
header_encodes (_ ∷ []) body l i u n = absurd (omega arith)
header_encodes (_ ∷ _ ∷ []) body l i u n = absurd (omega arith)
header_encodes (_ ∷ _ ∷ _ ∷ []) body l i u n = absurd (omega arith)
header_encodes (_ ∷ _ ∷ _ ∷ _ ∷ []) body l i u n = absurd (omega arith)
header_encodes (t ∷ a ∷ b ∷ c ∷ d ∷ []) body l (_, i) u n =
    ap (λ (w : Bytes). t ∷ (w ++ body))
      (sym (put_uint32-uint32 a b c d i) ∙ ap put_uint32 (u ∙ omega arith))
header_encodes (_ ∷ _ ∷ _ ∷ _ ∷ _ ∷ _ ∷ _) body l i u n = absurd (omega arith)

next_body_inv :
    (type size : ℕ) (s : Bytes) {body rest : Bytes}
    → next_body type size s ≡ ok (body, rest)
    → (s ≡ body ++ rest) × (size ≡ length body + 4) × (size ≤ max_message_length)
unfolding next_body
next_body_inv type size s h =
    let (lo, h₁) = fail_if_inv (ltb size 4) _ _ h in
    let (hi, h₂) = fail_if_inv (ltb max_message_length size) _ _ h₁ in
    let (e, l) = read_full_splits (size - 4) s (wrap_err_inv _ _ h₂) in
    (e, omega (arith, ltb→le size 4 lo), ltb→le max_message_length size hi)

-- Whatever was read, encoding it gives the bytes that were read.
encode_message-next_message :
    (s : Bytes) {m : Message} {rest : Bytes}
    → IsBytes s
    → next_message s ≡ ok (m, rest)
    → (s ≡ encode_message m ++ rest) × (length m.body + 4 ≤ max_message_length)
unfolding next_message
encode_message-next_message s {m} {rest} i h =
    let ((header, s₁), e₁, h₁) = bind-eq-ok (read_full 5 s) _ h in
    let ((body, s₂), e₂, h₂) =
      bind-eq-ok (next_body (type_byte header) (uint32 (drop 1 header)) s₁) _ h₁ in
    go header s₁ body s₂ (read_full_splits 5 s e₁) (next_body_inv _ _ s₁ e₂) h₂
  where
    go :
        (header s₁ body s₂ : Bytes)
        → (s ≡ header ++ s₁) × (length header ≡ 5)
        → (s₁ ≡ body ++ s₂)
          × (uint32 (drop 1 header) ≡ length body + 4)
          × (uint32 (drop 1 header) ≤ max_message_length)
        → ◌≡◌ {A = Result WireError (Message × Bytes)}
            (ok (record { type = type_byte header; body = body }, s₂))
            (ok (m, rest))
        → (s ≡ encode_message m ++ rest) × (length m.body + 4 ≤ max_message_length)
    go header s₁ body s₂ (e, l) (e', u, n) r =
        let (ih, _) = All-append_inv _ header s₁ (subst IsBytes e i) in
        let small : length body + 4 ≤ max_message_length = omega (arith, u, n) in
        subst
          (λ (x : Result WireError (Message × Bytes)). elim x [
            | ok (m', rest') ↦
                (s ≡ encode_message m' ++ rest') × (length m'.body + 4 ≤ max_message_length)
            | err _ ↦ Unit {0}
          ])
          r
          (
            e
                ∙ ap (◌++◌ header) e'
                ∙ sym (append_assoc header body s₂)
                ∙ ap (λ (b : Bytes). b ++ s₂) (header_encodes header body l ih u small),
            small,
          )
