-- ===== src/Tests/Access.antt =====
-- The theorems on TLS and on the start of the cluster, on a node in WAN mode.
use lbsync.Prelude.{◌≡◌, refl, pos, Text, text, same, false, some, [], ok}
use lbsync.Paths.{has, joined, clean, kept_of, onto_kept}
use lbsync.Main.Strings.{split, trim_left, trim_space}
use lbsync.Prelude.Decimal.{format_int, decimal, digits_from}
use lbsync.Cluster.Start.{started}
use lbsync.Wan.Start.{new_backend, tls_configs, listening, join_host_port}
use lbsync.Main.ParseList.{parse_list, keep_parts}
use lbsync.Main.Run
use lbsync.Main.Run.{Chosen, wan, World, start_wan, start_cluster}
use lbsync.Wan.Tls.{
  Crypto, verified_pair, own_certificate, authorities, configs_with, build_tls_config,
}
use lbsync.Wan.Tls.Verdict.{Verdict, build_tls_config-Verdict}
use lbsync.Tests.Fixtures.{standard}

abbrev crypto : Crypto Text Text Text
crypto = record {
  generate_key = ok (text "key");
  random_serial = ok 7;
  now = 1800000000;
  create_certificate = λ t k. ok (text "der");
  marshal_key = ok;
  encode_pem = λ kind raw. raw;
  key_pair = λ cert key. ok cert;
  load_key_pair = λ cert key. ok cert;
  read_file = ok;
  append_certs = some;
}

build_tls_config-Verdict_example :
    Verdict crypto
      (text "cert.pem")
      (text "key.pem")
      (text "ca.pem")
      (text "host")
      (build_tls_config crypto (text "cert.pem") (text "key.pem") (text "ca.pem") (text "host"))
build_tls_config-Verdict_example =
    build_tls_config-Verdict crypto (text "cert.pem") (text "key.pem") (text "ca.pem") (text "host")

abbrev pub world : World Text Text Text Text
world = record {
  os_hostname = ok (text "node");
  decode_string = ok;
  fresh_config = λ env. standard;
  olric_new = λ c. ok (text "db");
  wait = λ db. started;
  crypto = crypto;
  listen = λ addr. ok tt;
}

abbrev wan_node : Run.Config
wan_node = record {
  cluster = record {
    cluster_env = text "lan";
    bind_addr = text "10.0.0.1";
    advertise_addr = [];
    olric_port = pos 3320;
    memberlist_port = pos 3322;
    replica_count = pos 0;
    password = [];
    gossip_key = [];
    insecure = false;
  };
  peers = [];
  wan_port = pos 8443;
  tls_cert = text "cert.pem";
  tls_key = text "key.pem";
  tls_ca = text "ca.pem";
  hostname = [];
}

abbrev wan_started : Chosen Text Text Text
wan_started = wan (record {
  backend = record { addr = text "10.0.0.1:8443"; peers = []; store = [] };
  server = (verified_pair crypto (text "cert.pem") (text "ca.pem")).0;
  client = (verified_pair crypto (text "cert.pem") (text "ca.pem")).1;
})

wan_starts : start_cluster world wan_node ≡ ok wan_started
unfolding start_cluster start_wan new_backend tls_configs listening build_tls_config own_certificate
    configs_with authorities join_host_port format_int decimal digits_from parse_list keep_parts
    split trim_space trim_left same has clean joined kept_of onto_kept
wan_starts = refl
