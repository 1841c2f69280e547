-- ===== src/Tests/Process.antt =====
-- The command line and the life of the process, on a node in WAN mode.
use lbsync.Prelude.{
  inl, ◌++◌, ◌≡◌, refl, ℤ, pos, Text, text, same, true, false, [], ◌∷◌, List, Result, ok, err,
  message, none, if◌then◌else◌,
}
use lbsync.Prelude.Dict.{lookup}
use lbsync.Module.{register_stubs, intents}
use lbsync.Main.Load.{
  Config, Readers, bool_flag, text_flag, int_flag, flags, set, parse_bool, load_config,
}
use lbsync.Main.Load.{spelling}
use lbsync.Main.Load.Given.{Setting, joined, apart, bare, all_args, load_config-given}
use lbsync.Main.Process.{Outside}
use lbsync.Main.Process.Lifecycle.{Lifecycle}
use lbsync.Tests.Access.{world}

-- The defaults of config.
abbrev defaults : Config
defaults = record {
  letsencrypt_path = text "/etc/letsencrypt";
  serving_dir = text "/etc/lbsync/live";
  blob_resources = [];
  modules = text "ocsp";
  peers = [];
  cluster_env = text "lan";
  bind_addr = text "0.0.0.0";
  advertise_addr = [];
  olric_port = pos 3320;
  memberlist_port = pos 3322;
  replica_count = pos 0;
  wan_port = pos 0;
  tls_cert = [];
  tls_key = [];
  tls_ca = [];
  password = [];
  gossip_key = [];
  insecure = false;
  reconcile_interval = pos 30000000000;
  verify_cmd = [];
  reload_cmd = [];
  reload_timeout = pos 30000000000;
  port = pos 8623;
  hostname = [];
}

-- A reader of one number.
abbrev number : Text → Result ℤ
number s = if same s (text "8443") then ok (pos 8443) else err (message (text "parse error"))

abbrev readers : Readers
readers = record { parse_int = number; parse_duration = number }

-- -hostname=a --hostname b -insecure --wan-port 8443
abbrev settings : List Setting
settings =
    record {
      name = text "hostname";
      value = text "a";
      flag = text_flag (λ v c. record c { hostname = v });
      style = joined;
      two_dashes = false;
    }
    ∷ record {
      name = text "hostname";
      value = text "b";
      flag = text_flag (λ v c. record c { hostname = v });
      style = apart;
      two_dashes = true;
    }
    ∷ record {
      name = text "insecure";
      value = text "true";
      flag = bool_flag (λ v c. record c { insecure = v });
      style = bare;
      two_dashes = false;
    }
    ∷ record {
      name = text "wan-port";
      value = text "8443";
      flag = int_flag (λ v c. record c { wan_port = v });
      style = apart;
      two_dashes = true;
    }
    ∷ []

-- What stands behind `false` is not read.
abbrev behind : List Text
behind = text "false" ∷ text "-cluster-password=x" ∷ []

load_config-given_example :
    load_config readers (ok defaults) (all_args settings ++ behind)
    ≡ ok (record defaults { hostname = text "b"; insecure = true; wan_port = pos 8443 })
unfolding set parse_bool same lookup flags spelling
load_config-given_example =
    load_config-given readers defaults settings behind
      ((refl, tt), ((refl, tt), ((refl, refl), ((refl, tt), tt)))) (inl refl)

abbrev outside : Outside Text Text Text Text (Unit {0})
outside = record {
  world = world;
  readers = readers;
  environment = ok defaults;
  registry = register_stubs none intents [];
  dependencies = λ cl interval. tt;
}
