-- ===== src/Wire/Startup/Reencode.antt =====
-- What `Encode` writes for a packet that `ReadStartupPacket` has read, against the bytes read.
use pg_k8s_proxy.Common.{
  ℕ, ◌+◌, ◌-◌, ◌≤◌, ◌≡◌, ◌↔◌, refl, sym, ap, ap₂, length-drop, subst, ◌∙◌, ◌⊎◌, inl, inr, List, [],
  ◌∷◌, ◌++◌, Bytes, ok, length, drop, append_assoc, arith, length-append, Bool, false, ◌||◌,
  bind-eq-ok, fail_if_inv, wrap_err_inv, All-append_inv, Result-cases, ltb→le, ltb,
}
use pg_k8s_proxy.Wire.Io.{IsBytes, uint32, put_uint32, read_full, read_full_splits}
use pg_k8s_proxy.Wire.Startup.{
  Parameter, StartupPacket, no_cancel, major_version, max_startup_packet_length, parameters_size,
  put_parameters, packet_size, encode, decode_body, read_body, read_startup_packet,
  parse_parameters, is_ssl_request, is_gss_enc_request, is_cancel_request,
}
use pg_k8s_proxy.Wire.Startup.Params.{Parsed, parse_parameters-Parsed}
use pg_k8s_proxy.Wire.Startup.Frame.{decoded}
use pg_k8s_proxy.Wire.Startup.RoundTrip.{length-put_parameters}

-- The packet asks for TLS, for GSSAPI encryption, or to cancel a query.
abbrev pub is_request : StartupPacket → Bool
is_request p = is_ssl_request p || is_gss_enc_request p || is_cancel_request p

word_splits : (b : Bytes) → 4 ≤ length b → IsBytes b → b ≡ put_uint32 (uint32 b) ++ drop 4 b
word_splits [] h i = absurd (omega arith)
word_splits (_ ∷ []) h i = absurd (omega arith)
word_splits (_ ∷ _ ∷ []) h i = absurd (omega arith)
word_splits (_ ∷ _ ∷ _ ∷ []) h i = absurd (omega arith)
word_splits (a ∷ b ∷ c ∷ d ∷ r) h i = ground arith

decode_body_inv :
    (code : ℕ) (payload : Bytes) {p : StartupPacket}
    → decode_body code payload ≡ ok p
    → is_request p ≡ false
    → (p.code ≡ code)
      × (major_version code ≡ 3)
      × (parse_parameters payload ≡ ok p.parameters)
      × (p.cancel ≡ no_cancel)
unfolding decode_body
decode_body_inv code payload {p} h r = elim (Result-cases (parse_parameters payload)) [
  | inl (ps, e) ↦ ground (arith, h, e)
  | inr (x, e) ↦ ground (arith, h, e)
]

-- A body that was read, in front of what is left of the stream.
record Framed (size : ℕ) (s body rest : Bytes) : Type 0 where
  low : 8 ≤ size
  high : size ≤ max_startup_packet_length
  splits : s ≡ body ++ rest
  length_is : length body ≡ size - 4

read_body_inv :
    (size : ℕ) (s : Bytes) {body rest : Bytes}
    → read_body size s ≡ ok (body, rest)
    → Framed size s body rest
unfolding read_body
read_body_inv size s h =
    let (lo, h₁) = fail_if_inv (ltb size 8) _ _ h in
    let (hi, h₂) = fail_if_inv (ltb 10000 size) _ _ h₁ in
    let (e, l) = read_full_splits (size - 4) s (wrap_err_inv _ _ h₂) in
    record { low = ltb→le size 8 lo; high = ltb→le 10000 size hi; splits = e; length_is = l }

decoded_inv :
    (body s₂ : Bytes) {p : StartupPacket} {rest : Bytes}
    → decoded body s₂ ≡ ok (p, rest)
    → (decode_body (uint32 body) (drop 4 body) ≡ ok p) × (s₂ ≡ rest)
decoded_inv body s₂ h =
    let (q, e, h') = bind-eq-ok (decode_body (uint32 body) (drop 4 body)) _ h in
    ground (arith, e, h')

-- The header and the body of a packet that was read.
record Read (s : Bytes) (p : StartupPacket) (rest : Bytes) : Type 0 where
  header : Bytes
  body : Bytes
  header_length : length header ≡ 4
  frame : Framed (uint32 header) (body ++ rest) body rest
  splits : s ≡ header ++ (body ++ rest)
  decodes : decode_body (uint32 body) (drop 4 body) ≡ ok p

read_startup_packet_inv :
    (s : Bytes) {p : StartupPacket} {rest : Bytes}
    → read_startup_packet s ≡ ok (p, rest)
    → Read s p rest
unfolding read_startup_packet
read_startup_packet_inv s {p} {rest} h =
    let ((header, s₁), e₁, h₁) = bind-eq-ok (read_full 4 s) _ h in
    let ((body, s₂), e₂, h₂) = bind-eq-ok (read_body (uint32 header) s₁) _ h₁ in
    go header s₁ body s₂ (read_full_splits 4 s e₁) (read_body_inv _ _ e₂) (decoded_inv body s₂ h₂)
  where
    go :
        (header s₁ body s₂ : Bytes)
        → (s ≡ header ++ s₁) × (length header ≡ 4)
        → Framed (uint32 header) s₁ body s₂
        → (decode_body (uint32 body) (drop 4 body) ≡ ok p) × (s₂ ≡ rest)
        → Read s p rest
    go header s₁ body s₂ (e, l) f (d, r) = record {
      header = header;
      body = body;
      header_length = l;
      frame = record { low = f.low; high = f.high; splits = refl; length_is = f.length_is };
      splits = ground (arith, e, f.splits, r);
      decodes = d;
    }

-- The bytes of a protocol 3 packet that was read. `tail` is the terminator with any padding.
record Layout (s : Bytes) (p : StartupPacket) (rest tail : Bytes) : Type 0 where
  splits :
      s
      ≡ put_uint32 (uint32 s)
        ++ (put_uint32 p.code ++ (put_parameters p.parameters ++ (tail ++ rest)))
  size_is : uint32 s ≡ 8 + parameters_size p.parameters + length tail
  high : uint32 s ≤ max_startup_packet_length
  ends : (tail ≡ []) ⊎ ((padding : Bytes) × (tail ≡ 0 ∷ padding))

word_of_header :
    (h x : Bytes)
    → length h ≡ 4
    → IsBytes h
    → (h ≡ put_uint32 (uint32 h)) × (uint32 (h ++ x) ≡ uint32 h)
word_of_header [] x l i = absurd (omega arith)
word_of_header (_ ∷ []) x l i = absurd (omega arith)
word_of_header (_ ∷ _ ∷ []) x l i = absurd (omega arith)
word_of_header (_ ∷ _ ∷ _ ∷ []) x l i = absurd (omega arith)
word_of_header (a ∷ b ∷ c ∷ d ∷ []) x l i = (ground arith, refl)
word_of_header (a ∷ b ∷ c ∷ d ∷ _ ∷ _) x l i = absurd (omega arith)

Layout-of_Read :
    {s : Bytes} {p : StartupPacket} {rest : Bytes}
    → IsBytes s
    → is_request p ≡ false
    → Read s p rest
    → (tail : Bytes) × Layout s p rest tail
Layout-of_Read {s} {p} {rest} i q r =
    let (ih, ib) = All-append_inv _ r.header (r.body ++ rest) (subst IsBytes r.splits i) in
    let (ibody, _) = All-append_inv _ r.body rest ib in
    let (c, v, ps, _) = decode_body_inv (uint32 r.body) (drop 4 r.body) r.decodes q in
    let d : Parsed [] (drop 4 r.body) p.parameters = parse_parameters-Parsed (drop 4 r.body) ps in
    let (hw, hu) = word_of_header r.header (r.body ++ rest) r.header_length ih in
    let us : uint32 s ≡ uint32 r.header = ap uint32 r.splits ∙ hu in
    let body_is = word_splits r.body (omega (arith, r.frame.low, r.frame.length_is)) ibody in
    let written : drop 4 r.body ≡ put_parameters p.parameters ++ d.tail =
      d.splits ∙ ap (λ (l : List Parameter). put_parameters l ++ d.tail) (sym d.result) in
    let after : drop 4 r.body ++ rest ≡ put_parameters p.parameters ++ (d.tail ++ rest) =
      ap (λ (b : Bytes). b ++ rest) written
      ∙ append_assoc (put_parameters p.parameters) d.tail rest in
    (
      d.tail,
      record {
        splits =
            r.splits
            ∙ ap₂ ◌++◌ (hw ∙ ap put_uint32 (sym us)) (
                ap (λ (b : Bytes). b ++ rest) body_is
                ∙ ap₂ (λ (w : ℕ) (b : Bytes). put_uint32 w ++ b) (sym c) after);
        size_is = omega (
          arith,
          us,
          r.frame.low,
          r.frame.length_is,
          length-drop 4 r.body,
          ap length written,
          length-append (put_parameters p.parameters) d.tail,
          length-put_parameters p.parameters,
        );
        high = omega (arith, us, r.frame.high);
        ends = d.ends;
      },
    )

only_terminator : (tail padding : Bytes) → tail ≡ 0 ∷ padding → length tail ≡ 1 → tail ≡ 0 ∷ []
only_terminator tail [] z l = z
only_terminator tail (x ∷ xs) z l = absurd (omega (arith, ap length z))

module _ {s rest tail : Bytes} {p : StartupPacket} (y : Layout s p rest tail) where
  packet_size-le : packet_size p ≤ max_startup_packet_length + 1
  packet_size-le = omega (arith, y.size_is, y.high)

  uint32-of_encode : s ≡ encode p ++ rest → uint32 s ≡ packet_size p
  unfolding encode
  uint32-of_encode e = ap uint32 e ∙ omega (arith, packet_size-le)

  encode-of_uint32 : uint32 s ≡ packet_size p → s ≡ encode p ++ rest
  unfolding encode
  encode-of_uint32 e = elim y.ends [
    | inl z ↦ absurd (omega (arith, y.size_is, ap length z))
    | inr (padding, z) ↦
        y.splits
        ∙ ap₂ (λ (n : ℕ) (b : Bytes). put_uint32 n ++ (put_uint32 p.code ++ b))
            (omega (arith, e, packet_size-le))
            (ap (λ (b : Bytes). put_parameters p.parameters ++ (b ++ rest))
                (only_terminator tail padding z (omega (arith, e, y.size_is)))
              ∙ sym (append_assoc (put_parameters p.parameters) (0 ∷ []) rest))
  ]

-- A protocol 3 packet that was read is forwarded as the very bytes that came in exactly when the
-- announced length is the size of the packet, which leaves no room for padding and none for a
-- missing terminator.
pub encode-eq_read :
    (s : Bytes) (p : StartupPacket) (rest : Bytes)
    → IsBytes s
    → read_startup_packet s ≡ ok (p, rest)
    → is_request p ≡ false
    → (s ≡ encode p ++ rest) ↔ (uint32 s ≡ packet_size p)
encode-eq_read s p rest i h q =
    let (tail, y) = Layout-of_Read i q (read_startup_packet_inv s h) in
    (uint32-of_encode y, encode-of_uint32 y)
