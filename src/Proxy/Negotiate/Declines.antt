-- ===== src/Proxy/Negotiate/Declines.antt =====
-- A gateway without TLS, at a client that sends requests to negotiate and a startup packet.
use mathlib.Core.List.{map}
use pg_k8s_proxy.Common.{
  ℕ, zero, suc, ◌<◌, ◌≡◌, refl, sym, ap, ◌∙◌, Bytes, none, List, [], ◌∷◌, ◌++◌, append_assoc,
  append-nil, Bool, true, false, ok, err, length, arith,
}
use pg_k8s_proxy.Wire.Io.{put_uint32}
use pg_k8s_proxy.Wire.Startup.{
  StartupPacket, is_ssl_request, is_gss_enc_request, is_cancel_request, read_startup_packet,
  decode_body, encode, ssl_request_code, gss_enc_request_code, plain_packet,
}
use pg_k8s_proxy.Wire.Startup.Frame.{read_startup_packet_frame}
use pg_k8s_proxy.Wire.Startup.RoundTrip.{IsStartup, read_startup_packet-encode}
use pg_k8s_proxy.Proxy.Negotiate.{
  Network, ClientConn, Negotiated, negotiation_rejected, write, on_ssl_request, on_gss_enc_request,
  too_many_rounds, on_startup, on_packet, negotiate_loop, negotiate, max_negotiation_rounds,
}

-- The code of a request for TLS (`true`) or for GSSAPI encryption.
abbrev pub request_code : Bool → ℕ
request_code true = ssl_request_code
request_code false = gss_enc_request_code

abbrev pub put_request : Bool → Bytes
put_request ssl = put_uint32 8 ++ put_uint32 (request_code ssl)

abbrev pub put_requests : List Bool → Bytes → Bytes
put_requests [] rest = rest
put_requests (r ∷ rs) rest = put_request r ++ put_requests rs rest

read-put_request :
    (ssl : Bool) (rest : Bytes)
    → read_startup_packet (put_request ssl ++ rest) ≡ ok (plain_packet (request_code ssl), rest)
read-put_request true rest =
    read_startup_packet_frame 8 (put_uint32 ssl_request_code) rest (omega arith) (omega arith) refl
    ∙ unfold decode_body in refl
read-put_request false rest =
    read_startup_packet_frame 8 (put_uint32 gss_enc_request_code) rest (omega arith) (omega arith)
      refl
    ∙ unfold decode_body in refl

not_request :
    (p : StartupPacket)
    → IsStartup p
    → (is_ssl_request p ≡ false) × (is_gss_enc_request p ≡ false) × (is_cancel_request p ≡ false)
not_request p v = ground (arith, v.word, v.version)

-- The replies to so many requests.
abbrev pub refusals : List Bool → List Bytes
refusals rs = map (λ _. negotiation_rejected) rs

module _ (net : Network) (writes : (n : ℕ) → net.write_succeeds n ≡ true) where
  declines_one :
      (ssl : Bool) (n : ℕ) (c : ClientConn) (rest : Bytes)
      → c.input ≡ put_request ssl ++ rest
      → negotiate_loop net none (suc n) c
        ≡ negotiate_loop net none n
            (record c { input = rest; sent = c.sent ++ negotiation_rejected ∷ [] })
  unfolding negotiate_loop on_packet on_ssl_request on_gss_enc_request write
  declines_one true n c rest e =
      rw (ap read_startup_packet e ∙ read-put_request true rest, negotiate_loop)
        (ground (arith, writes (length c.sent)))
  declines_one false n c rest e =
      rw (ap read_startup_packet e ∙ read-put_request false rest, negotiate_loop)
        (ground (arith, writes (length c.sent)))

  takes_startup :
      (p : StartupPacket) (n : ℕ) (c : ClientConn) (rest : Bytes)
      → IsStartup p
      → c.input ≡ encode p ++ rest
      → negotiate_loop net none (suc n) c ≡ (record c { input = rest }, ok p)
  unfolding negotiate_loop on_packet on_startup
  takes_startup p n c rest v e =
      let (s, g, k) = not_request p v in
      rw (ap read_startup_packet e ∙ read_startup_packet-encode p rest v, negotiate_loop)
        (rw (s, g, k))

  declines_loop :
      (rs : List Bool) (p : StartupPacket) (n : ℕ) (c : ClientConn) (rest : Bytes)
      → IsStartup p
      → length rs < n
      → c.input ≡ put_requests rs (encode p ++ rest)
      → negotiate_loop net none n c
        ≡ (record c { input = rest; sent = c.sent ++ refusals rs }, ok p)
  declines_loop rs p zero c rest v h e = elim h [ ]
  declines_loop [] p (suc n) c rest v h e =
      takes_startup p n c rest v e
      ∙ ap (λ (l : List Bytes). (record c { input = rest; sent = l }, ok p))
          (sym (append-nil c.sent))
  declines_loop (r ∷ rs) p (suc n) c rest v h e =
      declines_one r n c (put_requests rs (encode p ++ rest)) e
      ∙ declines_loop rs p n _ rest v (omega arith) refl
      ∙ ap (λ (l : List Bytes). (record c { input = rest; sent = l }, ok p))
          (append_assoc c.sent (negotiation_rejected ∷ []) (refusals rs))

  exhausts :
      (rs : List Bool) (n : ℕ) (c : ClientConn) (rest : Bytes)
      → length rs ≡ n
      → c.input ≡ put_requests rs rest
      → (negotiate_loop net none n c).1 ≡ err too_many_rounds
  exhausts [] zero c rest h e = unfold negotiate_loop in refl
  exhausts (r ∷ rs) zero c rest h e = absurd (omega arith)
  exhausts [] (suc n) c rest h e = absurd (omega arith)
  exhausts (r ∷ rs) (suc n) c rest h e =
      ap (λ (x : Negotiated). x.1) (declines_one r n c (put_requests rs rest) e)
      ∙ exhausts rs n _ rest (omega arith) refl

  -- With TLS off and writes that succeed, up to three requests to negotiate are each declined by
  -- one byte and the startup packet behind them is taken, its bytes and no other read; a fourth
  -- request ends the connection.
  pub negotiate_declines :
      (rs : List Bool) (p : StartupPacket) (rest : Bytes)
      → IsStartup p
      → (length rs < max_negotiation_rounds
          → negotiate net none (put_requests rs (encode p ++ rest))
            ≡ (record { input = rest; encrypted = false; sent = refusals rs }, ok p))
        × (length rs ≡ max_negotiation_rounds
            → (negotiate net none (put_requests rs rest)).1 ≡ err too_many_rounds)
  unfolding negotiate
  negotiate_declines rs p rest v = (
    λ h. declines_loop rs p max_negotiation_rounds _ rest v h refl,
    λ h. exhausts rs max_negotiation_rounds _ rest h refl,
  )
