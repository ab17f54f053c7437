-- ===== src/Wire/Startup.antt =====
-- src/internal/pgwire/protocol.go: startup, negotiation and cancel packets.
-- An int32 is its bit pattern, a number below 2 ^ 32, so that the conversions between int32 and
-- uint32 are the identity.
pub mod Params
pub mod Frame
pub mod RoundTrip
pub mod Reencode
use pg_k8s_proxy.Common.{
  ℕ, zero, suc, ◌+◌, ◌-◌, ◌/◌, ◌%◌, ◌^◌, List, [], ◌∷◌, ◌++◌, Option, none, some, Bool, true, false,
  not, ◌||◌, Bytes, Result, ok, err, ◌>>=◌, ◌>>◌, fail_if, wrap_err, length, take, drop, ltb, ◌==◌,
  if◌then◌else◌, text_eq, Eq,
}
use pg_k8s_proxy.Wire.Io.{
  WireError, unexpected_eof, out_of_fuel, length_below_minimum, startup_too_large,
  reading_startup_body, negotiation_trailing_bytes, cancel_payload_length, unsupported_version,
  reading_parameter_name, reading_parameter_value, key_data_length, read_full, index_byte, uint32,
  put_uint32,
}

abbrev pub protocol_version3 : ℕ
protocol_version3 = 196608

abbrev pub cancel_request_code : ℕ
cancel_request_code = 80877102

abbrev pub ssl_request_code : ℕ
ssl_request_code = 80877103

abbrev pub gss_enc_request_code : ℕ
gss_enc_request_code = 80877104

abbrev pub msg_backend_key_data : ℕ
msg_backend_key_data = b'K'

abbrev pub max_startup_packet_length : ℕ
max_startup_packet_length = 10000

abbrev pub min_startup_packet_length : ℕ
min_startup_packet_length = 8

pub record Parameter : Type 0 where
  pub key : Bytes
  pub value : Bytes

pub record CancelRequest : Type 0 where
  pub process_id : ℕ
  pub secret_key : ℕ

pub record StartupPacket : Type 0 where
  pub code : ℕ
  pub parameters : List Parameter
  pub cancel : CancelRequest

-- The zero value of a Go struct of two numbers.
abbrev pub no_cancel : CancelRequest
no_cancel = record { process_id = 0; secret_key = 0 }

abbrev pub is_ssl_request : StartupPacket → Bool
is_ssl_request p = p.code == ssl_request_code

abbrev pub is_gss_enc_request : StartupPacket → Bool
is_gss_enc_request p = p.code == gss_enc_request_code

abbrev pub is_cancel_request : StartupPacket → Bool
is_cancel_request p = p.code == cancel_request_code

-- `p.Code >> 16`, the arithmetic shift of a signed number.
abbrev pub major_version : ℕ → ℕ
major_version code = if ltb code (2 ^ 31) then code / 2 ^ 16 else code / 2 ^ 16 + (2 ^ 32 - 2 ^ 16)

-- The loop of `Parameter`.
unfoldable pub find_parameter : Bytes → List Parameter → Option Bytes
find_parameter k [] = none
find_parameter k (p ∷ ps) = if text_eq p.key k then some p.value else find_parameter k ps

abbrev pub parameter : StartupPacket → Bytes → Option Bytes
parameter p k = find_parameter k p.parameters

-- The loop of `SetParameter`, and the append behind it.
unfoldable pub replace_parameter : Bytes → Bytes → List Parameter → List Parameter
replace_parameter k v [] = record { key = k; value = v } ∷ []
replace_parameter k v (p ∷ ps) =
    if text_eq p.key k then record p { value = v } ∷ ps else p ∷ replace_parameter k v ps

abbrev pub set_parameter : StartupPacket → Bytes → Bytes → StartupPacket
set_parameter p k v = record p { parameters = replace_parameter k v p.parameters }

unfoldable pub read_c_string : Bytes → Result WireError (Bytes × Bytes)
read_c_string b = elim (index_byte b 0) [
  | none ↦ err unexpected_eof
  | some end ↦ ok (take end b, drop (suc end) b)
]

-- The loop of `parseParameters`, on fuel. Each round takes two bytes at least.
unfoldable pub parse_loop : ℕ → Bytes → List Parameter → Result WireError (List Parameter)
parse_loop zero payload params = err out_of_fuel
parse_loop (suc fuel) [] params = ok params
parse_loop (suc fuel) (zero ∷ _) params = ok params
parse_loop (suc fuel) (suc c ∷ cs) params = do
  (key, rest) ← wrap_err reading_parameter_name (read_c_string (suc c ∷ cs))
  (value, rest') ← wrap_err (reading_parameter_value key) (read_c_string rest)
  parse_loop fuel rest' (params ++ record { key = key; value = value } ∷ [])

unfoldable pub parse_parameters : Bytes → Result WireError (List Parameter)
parse_parameters payload = parse_loop (suc (length payload)) payload []

abbrev pub plain_packet : ℕ → StartupPacket
plain_packet code = record { code = code; parameters = []; cancel = no_cancel }

-- `ReadStartupPacket` from the `switch` on.
unfoldable pub decode_body : ℕ → Bytes → Result WireError StartupPacket
decode_body code payload =
    let packet = plain_packet code in
    if code == ssl_request_code || code == gss_enc_request_code
    then (do
      fail_if (not (length payload == 0)) (negotiation_trailing_bytes (length payload))
      ok packet)
    else if code == cancel_request_code
    then (do
      fail_if (not (length payload == 8)) (cancel_payload_length (length payload))
      ok (record packet {
        cancel = record { process_id = uint32 payload; secret_key = uint32 (drop 4 payload) };
      }))
    else (do
      fail_if (not (major_version code == 3)) (unsupported_version code)
      params ← parse_parameters payload
      ok (record packet { parameters = params }))

-- `ReadStartupPacket` behind the header: the checks of the length, and the body.
unfoldable pub read_body : ℕ → Bytes → Result WireError (Bytes × Bytes)
read_body size s = do
  fail_if (ltb size min_startup_packet_length) (length_below_minimum size)
  fail_if (ltb max_startup_packet_length size) (startup_too_large size)
  wrap_err reading_startup_body (read_full (size - 4) s)

-- `ReadStartupPacket`: the packet and what is left of the stream.
unfoldable pub read_startup_packet : Bytes → Result WireError (StartupPacket × Bytes)
unfolding read_body
read_startup_packet s = do
  (header, s₁) ← read_full 4 s
  (body, s₂) ← read_body (uint32 header) s₁
  packet ← decode_body (uint32 body) (drop 4 body)
  ok (packet, s₂)

-- The loop of `Encode` that adds up the size, and the one that writes the parameters.
unfoldable pub parameters_size : List Parameter → ℕ
parameters_size [] = 0
parameters_size (p ∷ ps) = length p.key + 1 + length p.value + 1 + parameters_size ps

unfoldable pub put_parameters : List Parameter → Bytes
put_parameters [] = []
put_parameters (p ∷ ps) = p.key ++ (0 ∷ (p.value ++ (0 ∷ put_parameters ps)))

abbrev pub packet_size : StartupPacket → ℕ
packet_size p = 4 + 4 + 1 + parameters_size p.parameters

unfoldable pub encode : StartupPacket → Bytes
encode p =
    put_uint32 (packet_size p % 2 ^ 32)
    ++ (put_uint32 p.code ++ (put_parameters p.parameters ++ (0 ∷ [])))

unfoldable pub encode_cancel_request : CancelRequest → Bytes
encode_cancel_request k =
    put_uint32 16
    ++ (put_uint32 cancel_request_code ++ (put_uint32 k.process_id ++ put_uint32 k.secret_key))

unfoldable pub encode_backend_key_data : CancelRequest → Bytes
encode_backend_key_data k =
    msg_backend_key_data ∷ (put_uint32 12 ++ (put_uint32 k.process_id ++ put_uint32 k.secret_key))

unfoldable pub decode_backend_key_data : Bytes → Result WireError CancelRequest
decode_backend_key_data body = do
  fail_if (not (length body == 8)) (key_data_length (length body))
  ok (record { process_id = uint32 body; secret_key = uint32 (drop 4 body) })
