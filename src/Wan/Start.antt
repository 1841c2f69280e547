-- ===== src/Wan/Start.antt =====
-- `New` and `Close` of internal/wan/wan.go.
--
-- Listening is a parameter: whether the address can be had. The server and the client are their TLS
-- configurations.
use lbsync.Prelude.{
  ℤ, Text, text, same, true, ◌||◌, Option, none, some, List, [], ◌∷◌, ◌++◌, Result, ok, ◌>>=◌,
  if◌then◌else◌,
}
use lbsync.Prelude.Decimal.{format_int}
use lbsync.Paths.{has}
use lbsync.Wan.{Backend}
use lbsync.Wan.Tls.{Crypto, TlsConfig, plain, or_wrap, build_tls_config}

-- Config. `tls_config` is the override for tests.
pub record Config (C P : Type 0) : Type 0 where
  pub bind_addr : Text
  pub port : ℤ
  pub peers : List Text
  pub cert_file : Text
  pub key_file : Text
  pub ca_file : Text
  pub hostname : Text
  pub tls_config : Option (TlsConfig C P)

-- A backend that serves, with the TLS configurations of its server and of its client.
pub record Serving (C P : Type 0) : Type 0 where
  pub backend : Backend
  pub server : TlsConfig C P
  pub client : TlsConfig C P

abbrev pub or_default : Text → Text → Text
or_default standard t = if same t [] then standard else t

-- net.JoinHostPort
unfoldable pub join_host_port : Text → Text → Text
join_host_port host port =
    if has b':' host || has b'%' host
    then b'[' ∷ (host ++ (text "]:" ++ port))
    else host ++ (b':' ∷ port)

module _ {K C P : Type 0} (crypto : Crypto K C P) (listen : Text → Result (Unit {0})) where
  unfoldable pub tls_configs : Config C P → Result (TlsConfig C P × TlsConfig C P)
  tls_configs cfg = elim cfg.tls_config [
    | some server ↦ ok (server, record plain { skip_verify = true })
    | none ↦ or_wrap (text "wan: build TLS config") (
        build_tls_config crypto cfg.cert_file cfg.key_file cfg.ca_file
          (or_default (text "localhost") cfg.hostname))
  ]

  unfoldable pub listening :
      Text → Config C P → TlsConfig C P × TlsConfig C P → Result (Serving C P)
  listening addr cfg (server, client) = or_wrap (text "wan: listen " ++ addr) (listen addr) >>= λ u.
      ok (record {
        backend = record { addr = addr; peers = cfg.peers; store = [] };
        server = server;
        client = client;
      })

  -- New
  unfoldable pub new_backend : Config C P → Result (Serving C P)
  new_backend cfg =
      let addr = join_host_port (or_default (text "0.0.0.0") cfg.bind_addr) (format_int cfg.port) in
      tls_configs cfg >>= listening addr cfg
