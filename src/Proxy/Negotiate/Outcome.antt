-- ===== src/Proxy/Negotiate/Outcome.antt =====
-- What holds of every negotiation, whatever the client sends.
use pg_k8s_proxy.Common.{
  ℕ, zero, suc, ◌+◌, ◌≤◌, ◌≡◌, refl, ◌∙◌, Bytes, Option, none, some, [], ◌∷◌, true, false, not,
  ◌&&◌, ◌||◌, Result, ok, err, length, length-append, arith, Bool-cases, Option-cases, Result-cases,
  inl, inr,
}
use pg_k8s_proxy.Wire.Startup.{
  StartupPacket, is_ssl_request, is_gss_enc_request, is_cancel_request, read_startup_packet,
}
use pg_k8s_proxy.Wire.Message.{encode_error_response}
use pg_k8s_proxy.Proxy.Negotiate.{
  ServerTls, Network, ClientConn, Negotiated, NegotiateError, requires_tls, write, write_fatal,
  on_ssl_request, on_gss_enc_request, on_startup, on_packet, negotiate_loop, negotiate,
  negotiation_rejected, negotiation_accepted, max_negotiation_rounds,
}

-- A packet that ends a negotiation: no request to negotiate, and inside TLS where that is required,
-- unless it is a cancel request. TLS is on only if it is configured.
pub record IsAgreed (tls : Option ServerTls) (c : ClientConn) (p : StartupPacket) : Type 0 where
  pub not_negotiation : (is_ssl_request p || is_gss_enc_request p) ≡ false
  pub secured : requires_tls tls ≡ true → is_cancel_request p ≡ false → c.encrypted ≡ true

-- At most `n` replies, no reply lost, and TLS only where it is configured.
pub record Keeps (tls : Option ServerTls) (n : ℕ) (c d : ClientConn) : Type 0 where
  pub few_replies : length d.sent ≤ length c.sent + n
  pub tls_configured : tls ≡ none → d.encrypted ≡ c.encrypted

abbrev pub Agrees : Option ServerTls → ClientConn → Result NegotiateError StartupPacket → Type 0
Agrees tls c (ok p) = IsAgreed tls c p
Agrees tls c (err e) = Unit

pub record Outcome (tls : Option ServerTls) (n : ℕ) (c : ClientConn) (r : Negotiated) : Type 0 where
  pub keeps : Keeps tls n c r.0
  pub agrees : Agrees tls r.0 r.1

length-write :
    (net : Network) (c : ClientConn) (bytes : Bytes) {d : ClientConn}
    → write net c bytes ≡ some d
    → (length d.sent ≡ length c.sent + 1) × (d.encrypted ≡ c.encrypted)
unfolding write
length-write net c bytes h = ground (arith, length-append c.sent (bytes ∷ []))

module _ {tls : Option ServerTls} (n : ℕ) (c d : ClientConn) where
  -- One reply at most, and then the rounds that are left.
  Outcome-after :
      {r : Negotiated}
      → length d.sent ≤ length c.sent + 1
      → (tls ≡ none → d.encrypted ≡ c.encrypted)
      → Outcome tls n d r
      → Outcome tls (suc n) c r
  Outcome-after s e o = record {
    keeps = record {
      few_replies = omega (arith, s, o.keeps.few_replies);
      tls_configured = λ z. o.keeps.tls_configured z ∙ e z;
    };
    agrees = o.agrees;
  }

  Outcome-fails :
      (x : NegotiateError)
      → length d.sent ≤ length c.sent + 1
      → (tls ≡ none → d.encrypted ≡ c.encrypted)
      → Outcome tls (suc n) c (d, err x)
  Outcome-fails x s e = record {
    keeps = record { few_replies = omega (arith, s); tls_configured = e };
    agrees = tt;
  }

module _ {tls : Option ServerTls} (n : ℕ) (c : ClientConn) where
  Outcome-agrees : (p : StartupPacket) → IsAgreed tls c p → Outcome tls (suc n) c (c, ok p)
  Outcome-agrees p a = record {
    keeps = record { few_replies = omega arith; tls_configured = λ _. refl };
    agrees = a;
  }

write_fatal_keeps :
    (net : Network) (c : ClientConn) (sql_state message detail : Bytes)
    → let d = write_fatal net c sql_state message detail in
      (length d.sent ≤ length c.sent + 1) × (d.encrypted ≡ c.encrypted)
unfolding write_fatal
write_fatal_keeps net c sql_state message detail =
    elim (Option-cases (write net c (encode_error_response sql_state message detail))) [
      | inl e ↦ rw (e, write_fatal) (omega arith, refl)
      | inr (d, e) ↦
          let (l, q) = length-write net c _ e in rw (e, write_fatal) (omega (arith, l), q)
    ]

module _ (net : Network) (n : ℕ) (continue : ClientConn → Negotiated) (c : ClientConn) where
  on_gss_enc_request-Outcome :
      {tls : Option ServerTls}
      → ((d : ClientConn) → Outcome tls n d (continue d))
      → Outcome tls (suc n) c (on_gss_enc_request net continue c)
  unfolding on_gss_enc_request
  on_gss_enc_request-Outcome h = elim (Option-cases (write net c negotiation_rejected)) [
    | inl e ↦ rw (e, on_gss_enc_request) (Outcome-fails n c c _ (omega arith) (λ _. refl))
    | inr (d, e) ↦
        let (l, q) = length-write net c negotiation_rejected e in
        rw (e, on_gss_enc_request) (Outcome-after n c d (omega (arith, l)) (λ _. q) (h d))
  ]

  on_ssl_request-Outcome :
      (tls : Option ServerTls)
      → ((d : ClientConn) → Outcome tls n d (continue d))
      → Outcome tls (suc n) c (on_ssl_request net continue tls c)
  unfolding on_ssl_request
  on_ssl_request-Outcome none h = elim (Option-cases (write net c negotiation_rejected)) [
    | inl e ↦ rw (e, on_ssl_request) (Outcome-fails n c c _ (omega arith) (λ _. refl))
    | inr (d, e) ↦
        let (l, q) = length-write net c negotiation_rejected e in
        rw (e, on_ssl_request) (Outcome-after n c d (omega (arith, l)) (λ _. q) (h d))
  ]
  on_ssl_request-Outcome (some t) h = elim (Bool-cases c.encrypted) [
    | inl y ↦ simp y (Outcome-fails n c c _ (omega arith) (λ z. cc))
    | inr y ↦ simp y (elim (Option-cases (write net c negotiation_accepted)) [
      | inl e ↦ rw (e, on_ssl_request) (Outcome-fails n c c _ (omega arith) (λ z. cc))
      | inr (d, e) ↦
          let (l, q) = length-write net c negotiation_accepted e in
          rw (e, on_ssl_request)
            (elim (Option-cases (net.handshake d.input)) [
              | inl f ↦ rw f (Outcome-fails n c d _ (omega (arith, l)) (λ z. cc))
              | inr (inner, f) ↦ rw f (Outcome-after n c _ (omega (arith, l)) (λ z. cc) (h _))
            ])
    ])
  ]

  on_startup-Outcome :
      (tls : Option ServerTls) (p : StartupPacket)
      → (is_ssl_request p || is_gss_enc_request p) ≡ false
      → Outcome tls (suc n) c (on_startup net tls p c)
  unfolding on_startup
  on_startup-Outcome tls p s = elim (Bool-cases (requires_tls tls && not c.encrypted)) [
    | inl y ↦ rw y (
        Outcome-fails n c _ _ (write_fatal_keeps net c _ _ _).0
          (λ _. (write_fatal_keeps net c _ _ _).1))
    | inr y ↦ rw y (
        Outcome-agrees n c p
          (record { not_negotiation = s; secured = λ r _. ground (arith, r, y) }))
  ]

  on_packet-Outcome :
      (tls : Option ServerTls) (p : StartupPacket)
      → ((d : ClientConn) → Outcome tls n d (continue d))
      → Outcome tls (suc n) c (on_packet net continue tls p c)
  unfolding on_packet
  on_packet-Outcome tls p h = elim (Bool-cases (is_ssl_request p)) [
    | inl s ↦ rw s (on_ssl_request-Outcome tls h)
    | inr s ↦ rw s (elim (Bool-cases (is_gss_enc_request p)) [
      | inl g ↦ rw g (on_gss_enc_request-Outcome h)
      | inr g ↦ rw g (elim (Bool-cases (is_cancel_request p)) [
        | inl k ↦
            rw k
              (Outcome-agrees n c p (record { not_negotiation = rw (s, g); secured = λ _ z. cc }))
        | inr k ↦ rw k (on_startup-Outcome tls p (rw (s, g)))
      ])
    ])
  ]

-- What was read does not matter.
Outcome-input :
    {tls : Option ServerTls} (n : ℕ) (c : ClientConn) (input : Bytes) {r : Negotiated}
    → Outcome tls n (record c { input = input }) r
    → Outcome tls n c r
Outcome-input n c input o = record {
  keeps = record { few_replies = o.keeps.few_replies; tls_configured = o.keeps.tls_configured };
  agrees = o.agrees;
}

negotiate_loop-Outcome :
    (net : Network) (tls : Option ServerTls) (n : ℕ) (c : ClientConn)
    → Outcome tls n c (negotiate_loop net tls n c)
unfolding negotiate_loop
negotiate_loop-Outcome net tls zero c = record {
  keeps = record { few_replies = omega arith; tls_configured = λ z. refl };
  agrees = tt;
}
negotiate_loop-Outcome net tls (suc n) c = elim (Result-cases (read_startup_packet c.input)) [
  | inr (e, f) ↦ rw (f, negotiate_loop) (Outcome-fails n c c _ (omega arith) (λ z. refl))
  | inl ((p, input), f) ↦
      rw (f, negotiate_loop)
        (Outcome-input (suc n) c input (
          on_packet-Outcome net n (negotiate_loop net tls n) (record c { input = input }) tls p
            (negotiate_loop-Outcome net tls n)))
]

-- Whatever the client sends, the gateway answers at most four times before the session starts, uses
-- TLS only if it is configured, and ends with an error or with a packet that asks for no
-- negotiation and that, unless it is a cancel request, came through TLS where TLS is required.
pub negotiate-Outcome :
    (net : Network) (tls : Option ServerTls) (input : Bytes)
    → Outcome tls max_negotiation_rounds
        (record { input = input; encrypted = false; sent = [] })
        (negotiate net tls input)
unfolding negotiate
negotiate-Outcome net tls input = negotiate_loop-Outcome net tls max_negotiation_rounds _
