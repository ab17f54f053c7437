-- ===== src/Wire/Startup/Frame.antt =====
-- `ReadStartupPacket` at a stream that starts with a whole frame.
use pg_k8s_proxy.Common.{
  ℕ, ◌-◌, ◌^◌, ◌≤◌, ◌<◌, ◌≡◌, refl, ◌∙◌, [], ◌++◌, Bytes, Result, ok, ◌>>=◌, length, drop, arith,
  le→ltb,
}
use pg_k8s_proxy.Wire.Io.{WireError, uint32, put_uint32, uint32-put_uint32, read_full-append}
use pg_k8s_proxy.Wire.Startup.{
  StartupPacket, CancelRequest, read_startup_packet, decode_body, max_startup_packet_length,
  encode_cancel_request, encode_backend_key_data, decode_backend_key_data, cancel_request_code,
}

-- The packet that a body decodes to, with the rest of the stream.
abbrev pub decoded : Bytes → Bytes → Result WireError (StartupPacket × Bytes)
decoded body rest = decode_body (uint32 body) (drop 4 body) >>= λ packet. ok (packet, rest)

pub read_startup_packet_frame :
    (size : ℕ) (body rest : Bytes)
    → 8 ≤ size
    → size ≤ max_startup_packet_length
    → length body ≡ size - 4
    → read_startup_packet (put_uint32 size ++ (body ++ rest)) ≡ decoded body rest
unfolding read_startup_packet
read_startup_packet_frame size body rest lo hi n = rw (
  read_full-append 4 (put_uint32 size) (body ++ rest) refl,
  uint32-put_uint32 size [] (omega arith),
  le→ltb size 8 lo,
  le→ltb 10000 size hi,
  read_full-append (size - 4) body rest n,
)

-- A cancel request that was written is read back, whatever follows it.
pub read-encode_cancel_request :
    (k : CancelRequest) (rest : Bytes)
    → k.process_id < 2 ^ 32
    → k.secret_key < 2 ^ 32
    → read_startup_packet (encode_cancel_request k ++ rest)
      ≡ ok (record { code = cancel_request_code; parameters = []; cancel = k }, rest)
unfolding encode_cancel_request
read-encode_cancel_request k rest hp hs =
    read_startup_packet_frame 16
      (put_uint32 cancel_request_code ++ (put_uint32 k.process_id ++ put_uint32 k.secret_key)) rest
      (omega arith) (omega arith) refl
    ∙ unfold decode_body in ground arith

pub decode-encode_backend_key_data :
    (k : CancelRequest)
    → k.process_id < 2 ^ 32
    → k.secret_key < 2 ^ 32
    → decode_backend_key_data (drop 5 (encode_backend_key_data k)) ≡ ok k
unfolding encode_backend_key_data decode_backend_key_data
decode-encode_backend_key_data k hp hs = ground arith
