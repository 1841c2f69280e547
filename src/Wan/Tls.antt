-- ===== src/Wan/Tls.antt =====
-- internal/wan/tls.go: the TLS configurations of the server and of the client.
--
-- Packages crypto, crypto/tls and crypto/x509 are a parameter (`Crypto`), as is the file with the
-- authorities.
pub mod Verdict
use lbsync.Prelude.{
  ℕ, ◌+◌, Text, text, same, Bool, true, false, not, ◌&&◌, Option, none, some, List, [], ◌∷◌, ◌++◌,
  Result, ok, err, message, wrapped, ◌>>=◌, if◌then◌else◌,
}
use lbsync.Paths.{clean}

-- The fields of x509.Certificate that generateSelfSigned sets. The times are Unix seconds.
pub record Template : Type 0 where
  pub serial : ℕ
  pub common_name : Text
  pub not_before : ℕ
  pub not_after : ℕ
  pub dns_names : List Text
  pub addresses : List Text

-- `K` are private keys, `C` certificates with their keys, `P` pools of authorities.
pub record Crypto (K C P : Type 0) : Type 0 where
  pub generate_key : Result K
  pub random_serial : Result ℕ
  pub now : ℕ
  pub create_certificate : Template → K → Result Text
  pub marshal_key : K → Result Text
  pub encode_pem : Text → Text → Text
  pub key_pair : Text → Text → Result C
  pub load_key_pair : Text → Text → Result C
  pub read_file : Text → Result Text
  pub append_certs : Text → Option P

-- The fields of tls.Config that are set. `verify_clients` is RequireAndVerifyClientCert.
pub record TlsConfig (C P : Type 0) : Type 0 where
  pub certificates : List C
  pub verify_clients : Bool
  pub client_cas : Option P
  pub root_cas : Option P
  pub skip_verify : Bool

abbrev pub or_wrap : {A : Type 0} → Text → Result A → Result A
or_wrap what (ok a) = ok a
or_wrap what (err e) = err (wrapped what e)

abbrev pub plain : {C P : Type 0} → TlsConfig C P
plain = record {
  certificates = [];
  verify_clients = false;
  client_cas = none;
  root_cas = none;
  skip_verify = false;
}

abbrev no_client_certificate : Text
no_client_certificate =
    text "wan: --tls-ca requires --tls-cert and --tls-key (mTLS needs a client certificate)"

module _ {K C P : Type 0} (crypto : Crypto K C P) where
  -- The certificate is valid for 365 days.
  abbrev pub template : ℕ → Text → Template
  template serial hostname = record {
    serial = serial;
    common_name = hostname;
    not_before = crypto.now;
    not_after = crypto.now + 31536000;
    dns_names = hostname ∷ text "localhost" ∷ [];
    addresses = text "127.0.0.1" ∷ [];
  }

  -- generateSelfSigned
  unfoldable pub generate_self_signed : Text → Result C
  generate_self_signed hostname = do
    priv ← or_wrap (text "generate key") crypto.generate_key
    serial ← or_wrap (text "generate serial") crypto.random_serial
    der ←
        or_wrap (text "create certificate")
          (crypto.create_certificate (template serial hostname) priv)
    key_der ← or_wrap (text "marshal private key") (crypto.marshal_key priv)
    crypto.key_pair (crypto.encode_pem (text "CERTIFICATE") der)
        (crypto.encode_pem (text "PRIVATE KEY") key_der)

  -- The certificate of the server.
  unfoldable pub own_certificate : Text → Text → Text → Result C
  own_certificate cert_file key_file hostname =
      if same cert_file []
      then or_wrap (text "generate self-signed cert") (generate_self_signed hostname)
      else or_wrap (text "load cert/key") (crypto.load_key_pair cert_file key_file)

  abbrev pub pool_in : Text → Option P → Result P
  pool_in ca_file none = err (message (text "parse CA cert from " ++ ca_file))
  pool_in ca_file (some pool) = ok pool

  unfoldable pub authorities : Text → Result P
  authorities ca_file = do
    pem ← or_wrap (text "read CA file") (crypto.read_file (clean ca_file))
    pool_in ca_file (crypto.append_certs pem)

  -- The server and the client, with and without a pool of authorities.
  abbrev pub verified_pair : C → P → TlsConfig C P × TlsConfig C P
  verified_pair cert pool = (
    record plain { certificates = cert ∷ []; verify_clients = true; client_cas = some pool },
    record plain { certificates = cert ∷ []; root_cas = some pool },
  )

  abbrev pub encrypted_only : C → TlsConfig C P × TlsConfig C P
  encrypted_only cert =
      (record plain { certificates = cert ∷ [] }, record plain { skip_verify = true })

  unfoldable pub configs_with : Text → C → Result (TlsConfig C P × TlsConfig C P)
  configs_with ca_file cert =
      if not (same ca_file [])
      then (authorities ca_file >>= λ pool. ok (verified_pair cert pool))
      else ok (encrypted_only cert)

  -- buildTLSConfig. The warning that is logged is not kept.
  unfoldable pub build_tls_config :
      Text → Text → Text → Text → Result (TlsConfig C P × TlsConfig C P)
  build_tls_config cert_file key_file ca_file hostname =
      if not (same ca_file []) && same cert_file []
      then err (message no_client_certificate)
      else own_certificate cert_file key_file hostname >>= configs_with ca_file
