-- ===== src/Wire/Message/Errors.antt =====
-- What a client finds in an error response: the fields, in the order in which they were written.
use pg_k8s_proxy.Common.{
  ℕ, zero, suc, ◌≢◌, List, [], ◌∷◌, Bytes, Option, none, some, ok, err, is_empty, if◌then◌else◌,
}
use pg_k8s_proxy.Wire.Io.{IsText}
use pg_k8s_proxy.Wire.Startup.{read_c_string}
use pg_k8s_proxy.Wire.Message.{Field}

-- The protocol's own reading of an error body: fields, each a code and a text, and a final zero.
pub read_fields : ℕ → Bytes → Option (List Field)
read_fields zero b = none
read_fields (suc fuel) [] = none
read_fields (suc fuel) (zero ∷ rest) = if is_empty rest then some [] else none
read_fields (suc fuel) (suc c ∷ cs) = elim (read_c_string cs) [
  | err _ ↦ none
  | ok (v, rest) ↦ elim (read_fields fuel rest) [ none ↦ none | some fs ↦ some ((suc c, v) ∷ fs) ]
]

abbrev pub IsField : Field → Type 0
IsField f = (f.0 ≢ 0) × IsText f.1
