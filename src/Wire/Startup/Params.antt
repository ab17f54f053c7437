-- ===== src/Wire/Startup/Params.antt =====
-- Laws of the parameter list: `parseParameters`, `readCString`, `Parameter` and `SetParameter`.
use pg_k8s_proxy.Common.{
  ℕ, zero, suc, ◌≤◌, ◌<◌, ◌≡◌, ◌≢◌, refl, sym, ap, subst, ◌∙◌, ◌⊎◌, inl, inr, List, [], ◌∷◌, ◌++◌,
  Bytes, some, Result, ok, err, bind-eq-ok, wrap_err, wrap_err_inv, Result-cases, Option-cases,
  length, take, drop, All, append_assoc, append-nil, if◌then◌else◌, text_eq, text_eq_iff,
  take-append_length, arith, length-append,
}
use pg_k8s_proxy.Wire.Io.{
  WireError, out_of_fuel, reading_parameter_name, reading_parameter_value, index_byte,
  index_byte-append, index_byte_splits, IsText,
}
use pg_k8s_proxy.Wire.Startup.{
  Parameter, read_c_string, parse_loop, parse_parameters, put_parameters, find_parameter,
  replace_parameter,
}

-- A parameter that a packet can carry.
pub record IsParameter (p : Parameter) : Type 0 where
  pub key_text : IsText p.key
  pub key_some : p.key ≢ []
  pub value_text : IsText p.value

pub read_c_string-append :
    (k rest : Bytes) → IsText k → read_c_string (k ++ (0 ∷ rest)) ≡ ok (k, rest)
unfolding read_c_string
read_c_string-append k rest h =
    rw (index_byte-append k rest h, read_c_string)
      (ground (arith, take-append_length (length k) k (0 ∷ rest) refl, drop_suc k))
  where
    drop_suc : (k : Bytes) → drop (suc (length k)) (k ++ (0 ∷ rest)) ≡ rest
    drop_suc [] = refl
    drop_suc (x ∷ xs) = drop_suc xs

pub read_c_string_splits :
    (b : Bytes) {k rest : Bytes} → read_c_string b ≡ ok (k, rest) → (b ≡ k ++ (0 ∷ rest)) × IsText k
unfolding read_c_string
read_c_string_splits b {k} {rest} h = elim (Option-cases (index_byte b 0)) [
  | inl e ↦ absurd (cc (rw (e, read_c_string) at h))
  | inr (i, e) ↦ split i (rw (e, read_c_string) at h) (index_byte_splits b i e)
]
  where
    split :
        (i : ℕ)
        → ◌≡◌ {A = Result WireError (Bytes × Bytes)} (ok (take i b, drop (suc i) b)) (ok (k, rest))
        → (b ≡ take i b ++ (0 ∷ drop (suc i) b)) × IsText (take i b)
        → (b ≡ k ++ (0 ∷ rest)) × IsText k
    split i e (s, t) = (ground (arith, s, e), subst IsText (cc e) t)

-- One round of the loop, at a parameter that stands at the front.
parse_loop_round :
    (k v rest : Bytes) (acc : List Parameter) (fuel : ℕ)
    → IsParameter (record { key = k; value = v })
    → parse_loop (suc fuel) (k ++ (0 ∷ (v ++ (0 ∷ rest)))) acc
      ≡ parse_loop fuel rest (acc ++ record { key = k; value = v } ∷ [])
unfolding parse_loop
parse_loop_round [] v rest acc fuel w = absurd (w.key_some refl)
parse_loop_round (zero ∷ cs) v rest acc fuel w = absurd (w.key_text.0 refl)
parse_loop_round (suc c ∷ cs) v rest acc fuel w =
    rw (read_c_string-append (suc c ∷ cs) (v ++ (0 ∷ rest)) w.key_text)
      (rw (read_c_string-append v rest w.value_text))

-- Parsing what was written gives the parameters back, whatever stands behind the terminator.
pub parse_loop-put_parameters :
    (ps acc : List Parameter) (fuel : ℕ) (tail : Bytes)
    → All IsParameter ps
    → length ps < fuel
    → parse_loop fuel (put_parameters ps ++ (0 ∷ tail)) acc ≡ ok (acc ++ ps)
unfolding put_parameters
parse_loop-put_parameters ps acc zero tail a h = elim h [ ]
parse_loop-put_parameters [] acc (suc fuel) tail a h = rw append-nil (unfold parse_loop in refl)
parse_loop-put_parameters (p ∷ ps) acc (suc fuel) tail a h =
    ap (λ (b : Bytes). parse_loop (suc fuel) b acc)
      (append_assoc p.key _ (0 ∷ tail)
        ∙ ap (λ (b : Bytes). p.key ++ (0 ∷ b)) (append_assoc p.value _ (0 ∷ tail)))
    ∙ parse_loop_round p.key p.value (put_parameters ps ++ (0 ∷ tail)) acc fuel a.0
    ∙ parse_loop-put_parameters ps (acc ++ p ∷ []) fuel tail a.1 (omega arith)
    ∙ ap ok (append_assoc acc (p ∷ []) ps)

pub parameters-le-length : (ps : List Parameter) → length ps ≤ length (put_parameters ps)
unfolding put_parameters
parameters-le-length [] = omega arith
parameters-le-length (p ∷ ps) = omega (
  arith,
  length-append p.key (0 ∷ (p.value ++ (0 ∷ put_parameters ps))),
  length-append p.value (0 ∷ put_parameters ps),
  parameters-le-length ps,
)

pub parse_parameters-put_parameters :
    (ps : List Parameter) (tail : Bytes)
    → All IsParameter ps
    → parse_parameters (put_parameters ps ++ (0 ∷ tail)) ≡ ok ps
unfolding parse_parameters
parse_parameters-put_parameters ps tail a =
    parse_loop-put_parameters ps [] _ tail a
      (omega (arith, length-append (put_parameters ps) (0 ∷ tail), parameters-le-length ps))

-- What a payload looks like that parses: the parameters, then the end or a terminator.
pub record Parsed (acc : List Parameter) (payload : Bytes) (ps : List Parameter) : Type 0 where
  pub found : List Parameter
  pub tail : Bytes
  pub result : ps ≡ acc ++ found
  pub parameters : All IsParameter found
  pub splits : payload ≡ put_parameters found ++ tail
  pub ends : (tail ≡ []) ⊎ ((rest : Bytes) × (tail ≡ 0 ∷ rest))

key_of_suc : (c : ℕ) (cs k rest : Bytes) → suc c ∷ cs ≡ k ++ (0 ∷ rest) → k ≢ []
key_of_suc c cs k rest e z = ground (arith, e, z)

Parsed-cons :
    (p : Parameter) {acc ps : List Parameter} {payload : Bytes}
    → IsParameter p
    → Parsed (acc ++ p ∷ []) payload ps
    → Parsed acc (p.key ++ (0 ∷ (p.value ++ (0 ∷ payload)))) ps
unfolding put_parameters
Parsed-cons p {acc} w d = record {
  found = p ∷ d.found;
  tail = d.tail;
  result = d.result ∙ append_assoc acc (p ∷ []) d.found;
  parameters = (w, d.parameters);
  splits = ap (λ (b : Bytes). p.key ++ (0 ∷ (p.value ++ (0 ∷ b)))) d.splits ∙ simp append_assoc;
  ends = d.ends;
}

Parsed-here :
    (acc : List Parameter) {ps : List Parameter} (tail : Bytes)
    → acc ≡ ps
    → (tail ≡ []) ⊎ ((rest : Bytes) × (tail ≡ 0 ∷ rest))
    → Parsed acc tail ps
unfolding put_parameters
Parsed-here acc tail e ends = record {
  found = [];
  tail = tail;
  result = sym e ∙ sym (append-nil acc);
  parameters = tt;
  splits = refl;
  ends = ends;
}

-- What a round that succeeds has read.
parse_loop_inv :
    (fuel c : ℕ) (cs : Bytes) (acc : List Parameter) {ps : List Parameter}
    → parse_loop (suc fuel) (suc c ∷ cs) acc ≡ ok ps
    → (p : Parameter) × (rest : Bytes) × IsParameter p
      × (suc c ∷ cs ≡ p.key ++ (0 ∷ (p.value ++ (0 ∷ rest))))
      × (parse_loop fuel rest (acc ++ p ∷ []) ≡ ok ps)
unfolding parse_loop
parse_loop_inv fuel c cs acc h =
    let ((key, mid), e₁, h₁) =
      bind-eq-ok (wrap_err reading_parameter_name (read_c_string (suc c ∷ cs))) _ h in
    let ((value, rest), e₂, h₂) =
      bind-eq-ok (wrap_err (reading_parameter_value key) (read_c_string mid)) _ h₁ in
    let (s₁, t₁) = read_c_string_splits (suc c ∷ cs) (wrap_err_inv _ _ e₁) in
    let (s₂, t₂) = read_c_string_splits mid (wrap_err_inv _ _ e₂) in
    (
      record { key = key; value = value },
      rest,
      record { key_text = t₁; key_some = key_of_suc c cs key mid s₁; value_text = t₂ },
      s₁ ∙ ap (λ (b : Bytes). key ++ (0 ∷ b)) s₂,
      h₂,
    )

pub parse_loop_sound :
    (fuel : ℕ) (payload : Bytes) (acc : List Parameter) {ps : List Parameter}
    → parse_loop fuel payload acc ≡ ok ps
    → Parsed acc payload ps
parse_loop_sound zero payload acc h = unfold parse_loop in cc
parse_loop_sound (suc fuel) [] acc h = Parsed-here acc [] (unfold parse_loop in cc) (inl refl)
parse_loop_sound (suc fuel) (zero ∷ cs) acc h =
    Parsed-here acc (0 ∷ cs) (unfold parse_loop in cc) (inr (cs, refl))
parse_loop_sound (suc fuel) (suc c ∷ cs) acc {ps} h =
    let (p, rest, w, s, h') = parse_loop_inv fuel c cs acc h in
    subst (λ (b : Bytes). Parsed acc b ps) (sym s)
      (Parsed-cons p w (parse_loop_sound fuel rest (acc ++ p ∷ []) h'))

pub parse_parameters-Parsed :
    (payload : Bytes) {ps : List Parameter}
    → parse_parameters payload ≡ ok ps
    → Parsed [] payload ps
unfolding parse_parameters
parse_parameters-Parsed payload h = parse_loop_sound (suc (length payload)) payload [] h

read_c_string-length :
    (b : Bytes) {k rest : Bytes} → read_c_string b ≡ ok (k, rest) → length rest < length b
read_c_string-length b {k} {rest} h =
    omega (arith, ap length (read_c_string_splits b h).0, length-append k (0 ∷ rest))

-- The loop never stops for want of fuel.
parse_loop_total :
    (fuel : ℕ) (payload : Bytes) (acc : List Parameter)
    → length payload < fuel
    → parse_loop fuel payload acc ≢ err out_of_fuel
unfolding parse_loop
parse_loop_total zero payload acc h e = elim h [ ]
parse_loop_total (suc fuel) [] acc h e = unfold parse_loop in cc
parse_loop_total (suc fuel) (zero ∷ cs) acc h e = unfold parse_loop in cc
parse_loop_total (suc fuel) (suc c ∷ cs) acc h e =
    elim (Result-cases (read_c_string (suc c ∷ cs))) [
      | inr (x, e₁) ↦ cc (rw (e₁, parse_loop) at e)
      | inl ((key, mid), e₁) ↦ elim (Result-cases (read_c_string mid)) [
        | inr (x, e₂) ↦ cc (rw (e₁, parse_loop, e₂) at e)
        | inl ((value, rest), e₂) ↦
            parse_loop_total fuel rest _
              (omega (arith, h, read_c_string-length (suc c ∷ cs) e₁, read_c_string-length mid e₂))
              (rw (e₁, parse_loop, e₂) at e)
      ]
    ]

-- The bound of the loop is enough for every payload: it is never what ends the parsing.
parse_parameters_total : (payload : Bytes) → parse_parameters payload ≢ err out_of_fuel
unfolding parse_parameters
parse_parameters_total payload = parse_loop_total (suc (length payload)) payload [] (omega arith)

-- After SetParameter, Parameter finds the new value under that key and what it found before under
-- every other key.
pub find_parameter-replace_parameter :
    (k j v : Bytes) (ps : List Parameter)
    → find_parameter j (replace_parameter k v ps)
      ≡ (if text_eq k j then some v else find_parameter j ps)
unfolding find_parameter replace_parameter
find_parameter-replace_parameter k j v [] = refl
find_parameter-replace_parameter k j v (p ∷ ps) = ground (
  arith,
  text_eq_iff k j,
  text_eq_iff p.key k,
  text_eq_iff p.key j,
  find_parameter-replace_parameter k j v ps,
)
