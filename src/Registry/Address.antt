-- ===== src/Registry/Address.antt =====
-- `Route.Address`: net.JoinHostPort and strconv.Itoa.
use pg_k8s_proxy.Common.{
  ℕ, zero, suc, ℤ, pos, negsuc, ◌+◌, ◌/◌, ◌%◌, Bytes, [], ◌∷◌, ◌++◌, ltb, ◌==◌, if◌then◌else◌, Bool,
  false, ◌||◌,
}

-- The decimal digits of `n`, in front of `rest`, in at most `fuel` rounds.
digits_onto : ℕ → ℕ → Bytes → Bytes
digits_onto zero n rest = rest
digits_onto (suc fuel) n rest =
    let more = digits_onto fuel (n / 10) ((n % 10 + b'0') ∷ rest) in
    if ltb n 10 then (n + b'0') ∷ rest else more

-- A number below 10 ^ 20 has at most 20 digits; the program prints numbers of 32 bits.
unfoldable pub itoa : ℤ → Bytes
unfolding digits_onto
itoa (pos n) = digits_onto 20 n []
itoa (negsuc n) = b'-' ∷ digits_onto 20 (suc n) []

unfoldable pub contains : ℕ → Bytes → Bool
contains c [] = false
contains c (x ∷ xs) = x == c || contains c xs

-- A host with a colon is an IPv6 literal and goes into brackets.
unfoldable pub join_host_port : Bytes → Bytes → Bytes
unfolding contains
join_host_port host port =
    if contains b':' host then b'[' ∷ (host ++ (b']' ∷ b':' ∷ port)) else host ++ (b':' ∷ port)
