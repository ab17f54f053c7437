-- ===== src/Gateway/Starting.antt =====
-- Settings that `Validate` returned start a gateway.
use pg_k8s_proxy.Common.{
  ℕ, ◌≡◌, ◌⊎◌, Bytes, Option, none, some, true, false, Result, ok, err, is_empty, text_eq,
}
use pg_k8s_proxy.Config.{ProxyConfig, mode_disable, mode_require}
use pg_k8s_proxy.Proxy.Server.{Config, listen_address_required, apply_defaults, slots_for}
use pg_k8s_proxy.Gateway.{
  TlsFiles, GatewayTls, GatewayError, loading_key_pair, reading_client_ca, no_client_certificates,
  creating, server_config,
}

-- What the TLS files lack.
pub data FilesFail (files : TlsFiles) (p : ProxyConfig) : GatewayError → Type 0 where
  key_pair :
      files.load_key_pair p.tls_cert_file p.tls_key_file ≡ none → FilesFail files p loading_key_pair
  unreadable :
      is_empty p.tls_client_ca_file ≡ false
      → files.read_file p.tls_client_ca_file ≡ none
      → FilesFail files p reading_client_ca
  no_certificate :
      (pem : Bytes)
      → files.read_file p.tls_client_ca_file ≡ some pem
      → files.has_certificates pem ≡ false
      → FilesFail files p (no_client_certificates p.tls_client_ca_file)

-- The authority that client certificates are verified against.
abbrev pub ClientCaIs : TlsFiles → ProxyConfig → Option Bytes → Type 0
ClientCaIs files p ca =
    (is_empty p.tls_client_ca_file ≡ true) × (ca ≡ none)
    ⊎ (is_empty p.tls_client_ca_file ≡ false)
      × (pem : Bytes) × (files.read_file p.tls_client_ca_file ≡ some pem)
      × (files.has_certificates pem ≡ true)
      × (ca ≡ some pem)

-- What the gateway offers to clients that ask for TLS.
pub data TlsIs (files : TlsFiles) (p : ProxyConfig) : Option GatewayTls → Type 0 where
  plain : text_eq p.tls_mode mode_disable ≡ true → TlsIs files p none
  secured :
      {t : GatewayTls}
      → text_eq p.tls_mode mode_disable ≡ false
      → files.load_key_pair p.tls_cert_file p.tls_key_file ≡ some t.certificate
      → t.required ≡ text_eq p.tls_mode mode_require
      → ClientCaIs files p t.client_ca
      → TlsIs files p (some t)

pub data Started (files : TlsFiles) (p : ProxyConfig)
    : Result GatewayError (Config × Option ℕ) → Type 0 where
  started :
      {tls : Option GatewayTls}
      → TlsIs files p tls
      → is_empty p.bind_address ≡ false
      → Started files p (ok (apply_defaults (server_config p tls), slots_for p.max_connections))
  no_address :
      is_empty p.bind_address ≡ true → Started files p (err (creating listen_address_required))
  files_fail :
      {e : GatewayError}
      → text_eq p.tls_mode mode_disable ≡ false
      → FilesFail files p e
      → Started files p (err e)
