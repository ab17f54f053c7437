-- ===== src/Wire/Message.antt =====
-- src/internal/pgwire/message.go: typed messages and the errors that the gateway reports.
-- A message's body is a value here. The source's body aliases the reader's buffer until the next
-- read, and its only caller copies it by `Encode` before that.
pub mod Framing
pub mod Errors
use pg_k8s_proxy.Common.{
  ℕ, ◌+◌, ◌-◌, ◌%◌, ◌^◌, List, [], ◌∷◌, ◌++◌, Bytes, Result, ok, ◌>>=◌, ◌>>◌, fail_if, wrap_err,
  length, drop, ltb, if◌then◌else◌, is_empty, codes, take,
}
use pg_k8s_proxy.Wire.Io.{
  WireError, message_length_below_minimum, message_too_long, reading_message_body, read_full,
  uint32, put_uint32,
}

abbrev pub max_message_length : ℕ
max_message_length = 2 ^ 20

abbrev pub msg_ready_for_query : ℕ
msg_ready_for_query = b'Z'

abbrev pub msg_error_response : ℕ
msg_error_response = b'E'

pub record Message : Type 0 where
  pub type : ℕ
  pub body : Bytes

unfoldable pub encode_message : Message → Bytes
encode_message m = m.type ∷ (put_uint32 ((length m.body + 4) % 2 ^ 32) ++ m.body)

-- The first byte of a header of five.
abbrev type_byte : Bytes → ℕ
type_byte [] = 0
type_byte (t ∷ _) = t

-- `Next` behind the header: the checks of the length, and the body.
unfoldable pub next_body : ℕ → ℕ → Bytes → Result WireError (Bytes × Bytes)
next_body type size s = do
  fail_if (ltb size 4) (message_length_below_minimum type size)
  fail_if (ltb max_message_length size) (message_too_long type size)
  wrap_err (reading_message_body type) (read_full (size - 4) s)

-- `Next`: the message and what is left of the stream.
unfoldable pub next_message : Bytes → Result WireError (Message × Bytes)
unfolding next_body
next_message s = do
  (header, s₁) ← read_full 5 s
  (body, s₂) ← next_body (type_byte header) (uint32 (drop 1 header)) s₁
  ok (record { type = type_byte header; body = body }, s₂)

abbrev pub sql_state_undefined_database : Bytes
sql_state_undefined_database = codes "3D000"

abbrev pub sql_state_connection_failure : Bytes
sql_state_connection_failure = codes "08006"

abbrev pub sql_state_too_many_connections : Bytes
sql_state_too_many_connections = codes "53300"

abbrev pub sql_state_protocol_violation : Bytes
sql_state_protocol_violation = codes "08P01"

-- One of the struct values of `EncodeErrorResponse`.
abbrev pub Field : Type 0
Field = ℕ × Bytes

abbrev pub error_fields : Bytes → Bytes → Bytes → List Field
error_fields sql_state message detail =
    (b'S', codes "FATAL")
    ∷ (b'V', codes "FATAL")
    ∷ (b'C', sql_state)
    ∷ (b'M', message)
    ∷ (if is_empty detail then [] else (b'D', detail) ∷ [])

-- The loop that writes the fields.
unfoldable pub put_fields : List Field → Bytes
put_fields [] = []
put_fields ((code, value) ∷ fs) = code ∷ (value ++ (0 ∷ put_fields fs))

abbrev pub error_message : Bytes → Bytes → Bytes → Message
error_message sql_state message detail = record {
  type = msg_error_response;
  body = put_fields (error_fields sql_state message detail) ++ (0 ∷ []);
}

unfoldable pub encode_error_response : Bytes → Bytes → Bytes → Bytes
unfolding put_fields encode_message
encode_error_response sql_state message detail =
    encode_message (error_message sql_state message detail)
