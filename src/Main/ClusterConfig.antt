-- ===== src/Main/ClusterConfig.antt =====
-- `buildClusterConfig` of cmd/lbsync/main.go, and the part of `config` that it reads.
--
-- The decoder of encoding/base64 is a parameter.
pub mod Verdict
pub mod Secured
use lbsync.Prelude.Decimal.{decimal}
use lbsync.Prelude.{
  ℕ, ◌+◌, ℤ, pos, ltb_ℤ, Text, text, same, Bool, not, ◌&&◌, ◌||◌, List, [], ◌++◌, length, ◌==◌,
  Result, ok, err, message, wrapped, if◌then◌else◌,
}

-- The fields of config that concern the cluster.
pub record Config : Type 0 where
  pub cluster_env : Text
  pub bind_addr : Text
  pub advertise_addr : Text
  pub olric_port : ℤ
  pub memberlist_port : ℤ
  pub replica_count : ℤ
  pub password : Text
  pub gossip_key : Text
  pub insecure : Bool

-- cluster.Config; `gossip_key` is empty where the source has nil.
pub record ClusterConfig : Type 0 where
  pub env : Text
  pub bind_addr : Text
  pub bind_port : ℤ
  pub memberlist_port : ℤ
  pub advertise_addr : Text
  pub peers : List Text
  pub password : Text
  pub gossip_key : Text
  pub replica_count : ℤ

abbrev pub is_key_size : ℕ → Bool
is_key_size n = n == 16 || (n == 24 || n == 32)

-- The switch on the size of the decoded key.
unfoldable pub sized_key : Result Text → Result Text
sized_key (err e) = err (wrapped (text "CLUSTER_GOSSIP_KEY") e)
sized_key (ok decoded) =
    if is_key_size (length decoded)
    then ok decoded
    else err (
        message (
          text "CLUSTER_GOSSIP_KEY must decode to 16, 24, or 32 bytes, got "
          ++ decimal (length decoded)))

abbrev pub no_password : Text
no_password =
    text "refusing to start without CLUSTER_PASSWORD: private keys and blobs "
    ++ (text
          "traverse the cluster network. Set CLUSTER_PASSWORD (and ideally CLUSTER_GOSSIP_KEY), or pass -insecure "
        ++ text "for single-host development")

-- As many copies as there are nodes, unless a count is configured.
abbrev pub replicas : ℤ → List Text → ℤ
replicas n peers = if ltb_ℤ (pos 0) n then n else pos (length peers + 1)

unfoldable pub config_with : Config → List Text → Result Text → Result ClusterConfig
config_with cfg peers (err e) = err e
config_with cfg peers (ok key) = ok (record {
  env = cfg.cluster_env;
  bind_addr = cfg.bind_addr;
  bind_port = cfg.olric_port;
  memberlist_port = cfg.memberlist_port;
  advertise_addr = cfg.advertise_addr;
  peers = peers;
  password = cfg.password;
  gossip_key = key;
  replica_count = replicas cfg.replica_count peers;
})

module _ (decode_string : Text → Result Text) where
  unfoldable pub gossip_key_of : Text → Result Text
  gossip_key_of key = if same key [] then ok [] else sized_key (decode_string key)

  -- buildClusterConfig
  unfoldable pub build_cluster_config : Config → List Text → Result ClusterConfig
  build_cluster_config cfg peers =
      if not cfg.insecure && same cfg.password []
      then err (message no_password)
      else config_with cfg peers (gossip_key_of cfg.gossip_key)
