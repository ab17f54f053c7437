-- ===== src/Config/Trim.antt =====
-- `strings.TrimSpace`, on UTF-8: the bytes of a white space at either end go.
use pg_k8s_proxy.Common.{ℕ, zero, suc, Bytes, [], ◌∷◌, Bool, ◌&&◌, ◌||◌, ◌==◌, leb, if◌then◌else◌}

abbrev is_ascii_space : ℕ → Bool
is_ascii_space c = c == 32 || (leb 9 c && leb c 13)

-- U+0085 and U+00A0.
abbrev is_space_pair : ℕ → ℕ → Bool
is_space_pair a b = a == 194 && (b == 133 || b == 160)

-- U+1680, U+2000 to U+200A, U+2028, U+2029, U+202F, U+205F and U+3000.
abbrev is_space_triple : ℕ → ℕ → ℕ → Bool
is_space_triple a b c =
    (a == 225 && (b == 154 && c == 128))
    || ((a == 226
          && ((b == 128 && ((leb 128 c && leb c 138) || (c == 168 || (c == 169 || c == 175))))
              || (b == 129 && c == 159)))
        || (a == 227 && (b == 128 && c == 128)))

-- How many bytes the white space takes that begins the text, or zero; and likewise of the white
-- space that ends a text which is given from its end.
unfoldable pub leading_space : Bytes → ℕ
leading_space [] = 0
leading_space (a ∷ []) = if is_ascii_space a then 1 else 0
leading_space (a ∷ b ∷ []) = if is_ascii_space a then 1 else if is_space_pair a b then 2 else 0
leading_space (a ∷ b ∷ c ∷ rest) =
    if is_ascii_space a
    then 1
    else if is_space_pair a b
    then 2
    else if is_space_triple a b c
    then 3
    else 0

unfoldable pub trailing_space : Bytes → ℕ
trailing_space [] = 0
trailing_space (a ∷ []) = if is_ascii_space a then 1 else 0
trailing_space (a ∷ b ∷ []) = if is_ascii_space a then 1 else if is_space_pair b a then 2 else 0
trailing_space (a ∷ b ∷ c ∷ rest) =
    if is_ascii_space a
    then 1
    else if is_space_pair b a
    then 2
    else if is_space_triple c b a
    then 3
    else 0

-- The text without its white space in front; the number counts the bytes that are still to go.
unfoldable pub trim_front : (Bytes → ℕ) → ℕ → Bytes → Bytes
trim_front size n [] = []
trim_front size (suc n) (c ∷ cs) = trim_front size n cs
trim_front size zero (c ∷ cs) = elim (size (c ∷ cs)) [
  | zero ↦ c ∷ cs
  | suc n ↦ trim_front size n cs
]

-- The text from its end, behind what was turned round.
unfoldable pub backwards : Bytes → Bytes → Bytes
backwards done [] = done
backwards done (c ∷ cs) = backwards (c ∷ done) cs

unfoldable pub trim_space : Bytes → Bytes
trim_space s =
    let front = trim_front leading_space 0 s in
    backwards [] (trim_front trailing_space 0 (backwards [] front))
