-- ===== src/Wire/Startup/RoundTrip.antt =====
-- `ReadStartupPacket` at what `Encode` wrote.
use pg_k8s_proxy.Common.{
  ℕ, ◌-◌, ◌^◌, ◌≤◌, ◌<◌, ◌≡◌, refl, ap, ◌∙◌, List, [], ◌∷◌, ◌++◌, Bytes, ok, All, length, arith,
  length-append,
}
use pg_k8s_proxy.Wire.Io.{put_uint32, uint32-put_uint32}
use pg_k8s_proxy.Wire.Startup.{
  Parameter, StartupPacket, no_cancel, major_version, max_startup_packet_length, parameters_size,
  put_parameters, packet_size, encode, decode_body, read_startup_packet, parse_parameters,
}
use pg_k8s_proxy.Wire.Startup.Params.{IsParameter, parse_parameters-put_parameters}
use pg_k8s_proxy.Wire.Startup.Frame.{decoded, read_startup_packet_frame}

-- A protocol 3 packet that fits the limit and that carries nothing but its parameters.
pub record IsStartup (p : StartupPacket) : Type 0 where
  pub word : p.code < 2 ^ 32
  pub version : major_version p.code ≡ 3
  pub parameters : All IsParameter p.parameters
  pub fits : packet_size p ≤ max_startup_packet_length
  pub not_cancel : p.cancel ≡ no_cancel

pub length-put_parameters : (ps : List Parameter) → length (put_parameters ps) ≡ parameters_size ps
unfolding put_parameters parameters_size
length-put_parameters [] = refl
length-put_parameters (p ∷ ps) = omega (
  arith,
  length-append p.key (0 ∷ (p.value ++ (0 ∷ put_parameters ps))),
  length-append p.value (0 ∷ put_parameters ps),
  length-put_parameters ps,
)

pub encode_body : StartupPacket → Bytes
encode_body p = put_uint32 p.code ++ (put_parameters p.parameters ++ (0 ∷ []))

-- `Encode` writes as many bytes as it announces.
pub length-encode : (p : StartupPacket) → length (encode p) ≡ packet_size p
unfolding encode
length-encode p = omega (
  arith,
  length-append (put_parameters p.parameters) (0 ∷ []),
  length-put_parameters p.parameters,
)

decode_body-version3 :
    (code : ℕ) (payload : Bytes) {params : List Parameter}
    → code < 2 ^ 32
    → major_version code ≡ 3
    → parse_parameters payload ≡ ok params
    → decode_body code payload
      ≡ ok (record { code = code; parameters = params; cancel = no_cancel })
unfolding decode_body
decode_body-version3 code payload w v e = ground arith

encode-frame :
    (p : StartupPacket)
    → packet_size p ≤ max_startup_packet_length
    → encode p ≡ put_uint32 (packet_size p) ++ encode_body p
unfolding encode encode_body
encode-frame p h = ap (λ (n : ℕ). put_uint32 n ++ encode_body p) (omega arith)

length-encode_body : (p : StartupPacket) → length (encode_body p) ≡ packet_size p - 4
unfolding encode_body
length-encode_body p = omega (
  arith,
  length-append (put_parameters p.parameters) (0 ∷ []),
  length-put_parameters p.parameters,
)

decoded-encode_body :
    (p : StartupPacket) (rest : Bytes) → IsStartup p → decoded (encode_body p) rest ≡ ok (p, rest)
unfolding encode_body
decoded-encode_body p rest v =
    rw
      (
        uint32-put_uint32 p.code [] v.word,
        decode_body-version3 p.code (put_parameters p.parameters ++ (0 ∷ [])) v.word v.version
            (parse_parameters-put_parameters p.parameters [] v.parameters),
      )
      (ground (arith, v.not_cancel))

-- A packet of protocol 3 that is no cancellation, has a code of 32 bits, keys that are not empty,
-- keys and values without a NUL byte, and takes at most 10000 bytes, is read back from what was
-- written, and the reader stops where it ends.
pub read_startup_packet-encode :
    (p : StartupPacket) (rest : Bytes)
    → IsStartup p
    → read_startup_packet (encode p ++ rest) ≡ ok (p, rest)
read_startup_packet-encode p rest v =
    ap (λ (b : Bytes). read_startup_packet (b ++ rest)) (encode-frame p v.fits)
    ∙ read_startup_packet_frame (packet_size p) (encode_body p) rest (omega arith) v.fits
        (length-encode_body p)
    ∙ decoded-encode_body p rest v
