-- ===== src/Tests/WireTests.antt =====
-- Packets and messages: runs of src/internal/pgwire, with the cases of its tests.
use pg_k8s_proxy.Common.{
  ◌≡◌, ◌≢◌, ◌↔◌, refl, [], ◌∷◌, ◌++◌, Bytes, ok, err, codes, arith, ◌+◌, ◌*◌, ◌^◌,
}
use pg_k8s_proxy.Wire.Io.{
  unexpected_eof, uint32, eof, startup_too_large, length_below_minimum, reading_parameter_value,
  read_full, index_byte, unsupported_version,
}
use pg_k8s_proxy.Wire.Startup.{
  Parameter, CancelRequest, StartupPacket, no_cancel, protocol_version3, cancel_request_code,
  parse_parameters, parse_loop, read_c_string, read_startup_packet, decode_body, packet_size,
  parameters_size, put_parameters, encode, encode_cancel_request,
}
use pg_k8s_proxy.Wire.Startup.Params.{IsParameter}
use pg_k8s_proxy.Wire.Startup.Frame.{read-encode_cancel_request}
use pg_k8s_proxy.Wire.Startup.RoundTrip.{IsStartup, read_startup_packet-encode}
use pg_k8s_proxy.Wire.Startup.Reencode.{encode-eq_read}
use pg_k8s_proxy.Wire.Message.{Message, encode_message, next_message}
use pg_k8s_proxy.Wire.Message.Framing.{next_message-encode_message}

abbrev user : Parameter
user = record { key = codes "user"; value = codes "bob" }

abbrev hello : StartupPacket
hello = record { code = protocol_version3; parameters = user ∷ []; cancel = no_cancel }

user-IsParameter : IsParameter user
user-IsParameter = record { key_text = omega arith; key_some = λ e. cc; value_text = omega arith }

hello-IsStartup : IsStartup hello
unfolding parameters_size
hello-IsStartup = record {
  word = omega arith;
  version = refl;
  parameters = (user-IsParameter, tt);
  fits = omega arith;
  not_cancel = refl;
}

abbrev hello_bytes : Bytes
hello_bytes = 0 ∷ 0 ∷ 0 ∷ 18 ∷ 0 ∷ 3 ∷ 0 ∷ 0 ∷ (codes "user" ++ (0 ∷ (codes "bob" ++ (0 ∷ 0 ∷ []))))

encode-hello : encode hello ≡ hello_bytes
unfolding encode put_parameters parameters_size
encode-hello = refl

-- Without the value's NUL the packet ends unexpectedly.
truncated_value :
    read_startup_packet (0 ∷ 0 ∷ 0 ∷ 14 ∷ 0 ∷ 3 ∷ 0 ∷ 0 ∷ (codes "user" ++ (0 ∷ b'b' ∷ [])))
    ≡ err (reading_parameter_value (codes "user") unexpected_eof)
unfolding read_startup_packet decode_body parse_parameters parse_loop read_c_string read_full
    index_byte
truncated_value = refl

refused :
    (read_startup_packet [] ≡ err eof)
    × (read_startup_packet (0 ∷ 0 ∷ 0 ∷ 7 ∷ []) ≡ err (length_below_minimum 7))
    × (read_startup_packet (0 ∷ 0 ∷ 39 ∷ 17 ∷ []) ≡ err (startup_too_large 10001))
    × (read_startup_packet (0 ∷ 0 ∷ 0 ∷ 8 ∷ 0 ∷ 2 ∷ 0 ∷ 0 ∷ [])
        ≡ err (unsupported_version (2 * 2 ^ 16)))
unfolding read_startup_packet decode_body parse_parameters parse_loop read_c_string read_full
    index_byte
refused = (refl, refl, refl, refl)

hello_read : read_startup_packet hello_bytes ≡ ok (hello, [])
unfolding read_startup_packet decode_body parse_parameters parse_loop read_c_string read_full
    index_byte
hello_read = refl

read_startup_packet-encode_example :
    read_startup_packet (encode hello ++ (7 ∷ [])) ≡ ok (hello, 7 ∷ [])
read_startup_packet-encode_example = read_startup_packet-encode hello (7 ∷ []) hello-IsStartup

encode-eq_read_example :
    (hello_bytes ≡ encode hello ++ []) ↔ (uint32 hello_bytes ≡ packet_size hello)
encode-eq_read_example = encode-eq_read hello_bytes hello [] (omega arith) hello_read refl

-- Two bytes of padding behind the terminator: the packet is read, and shrinks when it is forwarded.
abbrev padded_bytes : Bytes
padded_bytes =
    0 ∷ 0 ∷ 0 ∷ 20 ∷ 0 ∷ 3 ∷ 0 ∷ 0 ∷ (codes "user" ++ (0 ∷ (codes "bob" ++ (0 ∷ 0 ∷ 0 ∷ 0 ∷ []))))

padded_read : read_startup_packet padded_bytes ≡ ok (hello, [])
unfolding read_startup_packet decode_body parse_parameters parse_loop read_c_string read_full
    index_byte
padded_read = refl

padded_changes : padded_bytes ≢ encode hello ++ []
unfolding parameters_size
padded_changes e =
    omega (arith, (encode-eq_read padded_bytes hello [] (omega arith) padded_read refl).0 e)

abbrev some_key : CancelRequest
some_key = record { process_id = 7; secret_key = 2 ^ 31 + 5 }

cancel_request_read_back :
    read_startup_packet (encode_cancel_request some_key ++ [])
    ≡ ok (record { code = cancel_request_code; parameters = []; cancel = some_key }, [])
cancel_request_read_back = read-encode_cancel_request some_key [] (omega arith) (omega arith)

abbrev ready : Message
ready = record { type = b'Z'; body = b'I' ∷ [] }

next_message-encode_message_example :
    next_message (encode_message ready ++ (1 ∷ 2 ∷ [])) ≡ ok (ready, 1 ∷ 2 ∷ [])
next_message-encode_message_example = next_message-encode_message ready (1 ∷ 2 ∷ []) (omega arith)

abbrev ready_bytes : Bytes
ready_bytes = b'Z' ∷ 0 ∷ 0 ∷ 0 ∷ 5 ∷ b'I' ∷ 9 ∷ []

ready_read : next_message ready_bytes ≡ ok (ready, 9 ∷ [])
unfolding next_message read_full
ready_read = refl
