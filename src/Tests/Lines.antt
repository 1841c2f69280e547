-- ===== src/Tests/Lines.antt =====
-- The command-line theorems on short texts.
use lbsync.Prelude.{◌≡◌, refl, pos, text, [], ◌∷◌, ok, false}
use lbsync.Main.Strings.{is_space, trim_space, trim_left}
use lbsync.Main.ParseList.Join.{IsItem, join}
use lbsync.Main.Resources.{parse_blob_resources}
use lbsync.Main.Resources.Print.{print_resource, IsPrintable, parse_blob_resources-print}
use lbsync.Main.ClusterConfig.{Config, build_cluster_config}
use lbsync.Main.ClusterConfig.Verdict.{Verdict, build_cluster_config-Verdict}
use lbsync.Tests.Fixtures.{site, avoids-All}

certs-IsItem : IsItem (text "certs")
unfolding trim_space trim_left is_space
certs-IsItem = record {
  nonempty = λ h. cc;
  trimmed = refl;
  no_comma = avoids-All b',' (text "certs") refl;
}

blob-IsItem : IsItem (text "blob")
unfolding trim_space trim_left is_space
blob-IsItem = record {
  nonempty = λ h. cc;
  trimmed = refl;
  no_comma = avoids-All b',' (text "blob") refl;
}

site-IsPrintable : IsPrintable site
unfolding print_resource trim_space trim_left is_space
site-IsPrintable = record {
  item = record {
    nonempty = λ h. cc;
    trimmed = refl;
    no_comma = avoids-All b',' (text "site=/a:/d:mtime") refl;
  };
  name_trimmed = refl;
  name_plain = avoids-All b'=' (text "site") refl;
  source_plain = avoids-All b':' (text "/a") refl;
  dest_plain = avoids-All b':' (text "/d") refl;
  strategy_plain = avoids-All b':' (text "mtime") refl;
  strategy_set = λ h. cc;
  no_verify = refl;
  no_reload = refl;
}

parse_blob_resources-print_example : parse_blob_resources (text "site=/a:/d:mtime") ≡ ok (site ∷ [])
unfolding join print_resource
parse_blob_resources-print_example = parse_blob_resources-print (site ∷ []) (site-IsPrintable, tt)

abbrev open_config : Config
open_config = record {
  cluster_env = text "lan";
  bind_addr = text "0.0.0.0";
  advertise_addr = [];
  olric_port = pos 3320;
  memberlist_port = pos 3322;
  replica_count = pos 0;
  password = text "secret";
  gossip_key = text "AAAA";
  insecure = false;
}

-- The key has the wrong size.
build_cluster_config-Verdict_example :
    Verdict
      (λ t. ok t)
      open_config
      (text "b:3322" ∷ [])
      (build_cluster_config (λ t. ok t) open_config (text "b:3322" ∷ []))
build_cluster_config-Verdict_example =
    build_cluster_config-Verdict (λ t. ok t) open_config (text "b:3322" ∷ [])
