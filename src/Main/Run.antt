-- ===== src/Main/Run.antt =====
-- `run` of cmd/lbsync/main.go up to the start of the cluster, and the answers of `newHTTPServer`.
--
-- The configuration is taken as it comes from `loadConfig`. The log is not kept.
pub mod Access
use lbsync.Prelude.{
  ℤ, pos, eqb_ℤ, Text, text, same, Bool, not, none, [], ◌∷◌, ◌++◌, Result, ok, err, ◌>>=◌,
  if◌then◌else◌,
}
use lbsync.Wan.{Response}
use lbsync.Wan.Tls.{Crypto, or_wrap}
use lbsync.Wan.Start
use lbsync.Wan.Start.{Serving, new_backend}
use lbsync.Cluster.{Cluster}
use lbsync.Cluster.Start.{OlricConfig, Wait, new_cluster}
use lbsync.Main.ParseList.{parse_list}
use lbsync.Main.ClusterConfig
use lbsync.Main.ClusterConfig.{build_cluster_config}

-- The fields of config that choose and configure the cluster.
pub record Config : Type 0 where
  pub cluster : ClusterConfig.Config
  pub peers : Text
  pub wan_port : ℤ
  pub tls_cert : Text
  pub tls_key : Text
  pub tls_ca : Text
  pub hostname : Text

-- What `cl` and `closeCluster` stand for.
pub data Chosen (O C P : Type 0) : Type 0 where
  lan : Cluster O → Chosen O C P
  wan : Serving C P → Chosen O C P

-- defaultHostname, of what os.Hostname answers
unfoldable pub default_hostname : Result Text → Text
default_hostname (ok h) = h
default_hostname (err e) = text "unknown"

-- What a cluster is started with from outside.
pub record World (O K C P : Type 0) : Type 0 where
  pub os_hostname : Result Text
  pub decode_string : Text → Result Text
  pub fresh_config : Text → OlricConfig
  pub olric_new : OlricConfig → Result O
  pub wait : O → Wait
  pub crypto : Crypto K C P
  pub listen : Text → Result (Unit {0})

module _ {O K C P : Type 0} (w : World O K C P) where
  open w use {os_hostname, decode_string, fresh_config, olric_new, wait, crypto, listen}

  abbrev pub named : Config → Config
  named cfg = record cfg {
    hostname = if same cfg.hostname [] then default_hostname os_hostname else cfg.hostname;
  }

  abbrev pub wan_config : Config → Start.Config C P
  wan_config cfg = record {
    bind_addr = cfg.cluster.bind_addr;
    port = cfg.wan_port;
    peers = parse_list cfg.peers;
    cert_file = cfg.tls_cert;
    key_file = cfg.tls_key;
    ca_file = cfg.tls_ca;
    hostname = cfg.hostname;
    tls_config = none;
  }

  unfoldable pub start_lan : Config → Result (Chosen O C P)
  start_lan cfg = build_cluster_config decode_string cfg.cluster (parse_list cfg.peers) >>= λ c.
      or_wrap (text "cluster") (new_cluster fresh_config olric_new wait c) >>= λ cl. ok (lan cl)

  unfoldable pub start_wan : Config → Result (Chosen O C P)
  start_wan cfg =
      or_wrap (text "wan cluster") (new_backend crypto listen (wan_config cfg)) >>= λ s. ok (wan s)

  -- The part of run that chooses and starts the cluster.
  unfoldable pub start_cluster : Config → Result (Chosen O C P)
  start_cluster cfg =
      if eqb_ℤ cfg.wan_port (pos 0) then start_lan (named cfg) else start_wan (named cfg)

-- newHTTPServer: the answers, where `metrics` is that of promhttp.
unfoldable pub answer_http : Bool → Response → Text → Response
answer_http ready metrics path =
    if same path (text "/metrics")
    then metrics
    else if same path (text "/healthz")
    then record { status = 200; body = text "ok" }
    else if same path (text "/readyz")
    then (if not ready
        then record { status = 503; body = text "not ready" ++ (10 ∷ []) }
        else record { status = 200; body = text "ready" })
    else if not (same path (text "/"))
    then record { status = 404; body = text "404 page not found" ++ (10 ∷ []) }
    else record {
      status = 200;
      body =
          text "lbsync"
          ++ (10
              ∷ (text "GET /metrics"
                  ++ (10 ∷ (text "GET /healthz" ++ (10 ∷ (text "GET /readyz" ++ (10 ∷ [])))))));
    }
