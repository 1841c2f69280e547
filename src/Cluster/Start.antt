-- ===== src/Cluster/Start.antt =====
-- `NewCluster` of internal/cluster/cluster.go: the configuration of Olric, and the wait for its start.
--
-- What config.New fills in for an environment, olric.New and the start are parameters.
use lbsync.Prelude.{
  ℤ, pos, ltb_ℤ, Text, text, same, Option, some, List, [], Result, ok, err, Error, wrapped,
  if◌then◌else◌,
}
use lbsync.Main.ClusterConfig.{ClusterConfig}
use lbsync.Cluster.{Cluster}

-- The fields of config.Config that NewCluster sets.
pub record OlricConfig : Type 0 where
  pub bind_addr : Text
  pub bind_port : ℤ
  pub gossip_bind_addr : Text
  pub gossip_bind_port : ℤ
  pub advertise_port : ℤ
  pub advertise_addr : Text
  pub peers : List Text
  pub authentication : Option Text
  pub secret_key : Option Text
  pub replica_count : ℤ
  pub read_quorum : ℤ
  pub write_quorum : ℤ

-- How the select over the start ends: `ok`, an error of db.Start, or a cancelled context.
pub data Wait : Type 0 where
  started : Wait
  start_failed : Error → Wait
  cancelled : Error → Wait

abbrev pub or_lan : Text → Text
or_lan env = if same env [] then text "lan" else env

abbrev pub with_replicas : ℤ → OlricConfig → OlricConfig
with_replicas n c =
    if ltb_ℤ (pos 0) n
    then record c { replica_count = n; read_quorum = pos 1; write_quorum = pos 1 }
    else c

module _ (fresh_config : Text → OlricConfig) where
  unfoldable pub olric_config : ClusterConfig → OlricConfig
  olric_config cfg =
      let c = fresh_config (or_lan cfg.env) in
      with_replicas cfg.replica_count (record {
        bind_addr = cfg.bind_addr;
        bind_port = cfg.bind_port;
        gossip_bind_addr = cfg.bind_addr;
        gossip_bind_port = cfg.memberlist_port;
        advertise_port = cfg.memberlist_port;
        advertise_addr =
            if same cfg.advertise_addr [] then c.advertise_addr else cfg.advertise_addr;
        peers = cfg.peers;
        authentication = if same cfg.password [] then c.authentication else some cfg.password;
        secret_key = if same cfg.gossip_key [] then c.secret_key else some cfg.gossip_key;
        replica_count = c.replica_count;
        read_quorum = c.read_quorum;
        write_quorum = c.write_quorum;
      })

  module _ {O : Type 0} (olric_new : OlricConfig → Result O) (wait : O → Wait) where
    -- The select.
    unfoldable pub when_started : O → Wait → Result (Cluster O)
    when_started db started = ok (record { db = db; dmaps = [] })
    when_started db (start_failed e) = err (wrapped (text "olric.Start") e)
    when_started db (cancelled e) = err e

    -- NewCluster
    unfoldable pub new_cluster : ClusterConfig → Result (Cluster O)
    new_cluster cfg = elim (olric_new (olric_config cfg)) [
      | err e ↦ err (wrapped (text "olric.New") e)
      | ok db ↦ when_started db (wait db)
    ]
