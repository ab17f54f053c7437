-- ===== src/Wire/Io.antt =====
-- The parts of Go's io, bytes and encoding/binary packages that src/internal/pgwire uses.
use pg_k8s_proxy.Common.{
  ℕ, zero, suc, ◌+◌, ◌*◌, ◌/◌, ◌%◌, ◌^◌, ◌<◌, ◌≡◌, ◌≢◌, refl, [], ◌∷◌, ◌++◌, Option, none, some,
  Bytes, Result, ok, err, length, take, drop, leb, ◌==◌, if◌then◌else◌, is_empty, arith, All,
  length-append, take-append_length, drop-append_length, take-append-drop, length-take_of_le, Bool,
  true, false,
}

-- The errors of reading a packet or a message. A constructor with an error inside stands for
-- `fmt.Errorf("…: %w", err)`. `out_of_fuel` is no error of the source: see `parse_parameters`.
pub data WireError : Type 0 where
  eof unexpected_eof out_of_fuel : WireError
  length_below_minimum : ℕ → WireError
  startup_too_large : ℕ → WireError
  reading_startup_body : WireError → WireError
  negotiation_trailing_bytes : ℕ → WireError
  cancel_payload_length : ℕ → WireError
  unsupported_version : ℕ → WireError
  reading_parameter_name : WireError → WireError
  reading_parameter_value : Bytes → WireError → WireError
  message_length_below_minimum : ℕ → ℕ → WireError
  message_too_long : ℕ → ℕ → WireError
  reading_message_body : ℕ → WireError → WireError
  key_data_length : ℕ → WireError

-- `isBenignClose` of src/internal/proxy/session.go: it looks through wrapped errors.
unfoldable pub is_benign_close : WireError → Bool
is_benign_close eof = true
is_benign_close unexpected_eof = true
is_benign_close (reading_startup_body e) = is_benign_close e
is_benign_close (reading_parameter_name e) = is_benign_close e
is_benign_close (reading_parameter_value key e) = is_benign_close e
is_benign_close (reading_message_body type e) = is_benign_close e
is_benign_close _ = false

-- `io.ReadFull` into a buffer of `n` bytes: the buffer and what is left of the stream.
unfoldable pub read_full : ℕ → Bytes → Result WireError (Bytes × Bytes)
read_full n s =
    if leb n (length s)
    then ok (take n s, drop n s)
    else if is_empty s
    then err eof
    else err unexpected_eof

-- `bytes.IndexByte`, with `none` for -1.
unfoldable pub index_byte : Bytes → ℕ → Option ℕ
index_byte [] c = none
index_byte (x ∷ xs) c =
    if x == c then some 0 else elim (index_byte xs c) [ none ↦ none | some i ↦ some (suc i) ]

-- `binary.BigEndian.Uint32`. The callers pass four bytes or more.
abbrev pub uint32 : Bytes → ℕ
uint32 (a ∷ b ∷ c ∷ d ∷ _) = a * 2 ^ 24 + b * 2 ^ 16 + c * 2 ^ 8 + d
uint32 _ = 0

-- What `binary.BigEndian.AppendUint32` appends.
abbrev pub put_uint32 : ℕ → Bytes
put_uint32 w = (w / 2 ^ 24 % 256) ∷ (w / 2 ^ 16 % 256) ∷ (w / 2 ^ 8 % 256) ∷ (w % 256) ∷ []

-- Every element is a byte.
abbrev pub IsBytes : Bytes → Type 0
IsBytes = All (λ b. b < 256)

pub uint32-put_uint32 : (w : ℕ) (rest : Bytes) → w < 2 ^ 32 → uint32 (put_uint32 w ++ rest) ≡ w
uint32-put_uint32 w rest h = omega arith

pub put_uint32-uint32 :
    (a b c d : ℕ)
    → IsBytes (a ∷ b ∷ c ∷ d ∷ [])
    → put_uint32 (uint32 (a ∷ b ∷ c ∷ d ∷ [])) ≡ a ∷ b ∷ c ∷ d ∷ []
put_uint32-uint32 a b c d h = ground arith

pub read_full-append :
    (n : ℕ) (xs ys : Bytes) → length xs ≡ n → read_full n (xs ++ ys) ≡ ok (xs, ys)
unfolding read_full
read_full-append n xs ys h =
    ground (arith, length-append xs ys, take-append_length n xs ys h, drop-append_length n xs ys h)

-- A read that succeeds splits the stream.
pub read_full_splits :
    (n : ℕ) (s : Bytes) {a b : Bytes} → read_full n s ≡ ok (a, b) → (s ≡ a ++ b) × (length a ≡ n)
unfolding read_full
read_full_splits n s h = ground (arith, take-append-drop n s, length-take_of_le n s)

-- No NUL inside.
abbrev pub IsText : Bytes → Type 0
IsText = All (λ b. b ≢ 0)

pub index_byte-append :
    (k rest : Bytes) → IsText k → index_byte (k ++ (0 ∷ rest)) 0 ≡ some (length k)
unfolding index_byte
index_byte-append [] rest h = refl
index_byte-append (x ∷ xs) rest h = ground (arith, index_byte-append xs rest h.1)

-- Where a byte is found the list splits there, and what stands before is free of it.
pub index_byte_splits :
    (b : Bytes) (i : ℕ)
    → index_byte b 0 ≡ some i
    → (b ≡ take i b ++ (0 ∷ drop (suc i) b)) × IsText (take i b)
unfolding index_byte
index_byte_splits [] i h = cc
index_byte_splits (x ∷ xs) zero h = ground arith
index_byte_splits (x ∷ xs) (suc i) h = ground (arith, index_byte_splits xs i)
