-- ===== src/Tests/Maps.antt =====
-- The theorems on the cluster over distributed maps, on maps that never fail and keys of one
-- character.
use lbsync.Prelude.{
  ℕ, ◌==◌, ◌≡◌, refl, sym, ap, pos, Text, text, same, contains, true, false, Option, none, some,
  List, [], ◌∷◌, Result, ok, err, message, err-ne-ok, ok-injective, if◌then◌else◌,
}
use lbsync.Prelude.Dict.{lookup}
use lbsync.Engine.{Engine, St}
use lbsync.Engine.Tick.{tick_key}
use lbsync.Wan.{Codec}
use lbsync.Blob.{BlobState, provider}
use lbsync.Cluster.{
  not_found, found, Olric, Cluster, get, put, keys, olric_cluster, open_dmap, opened, read_record,
  read_index, record_in, keys_in, put_raw, add_to_index, update_index, extend_index, write_index,
}
use lbsync.Cluster.Laws.{written, IsOlric}
use lbsync.Cluster.Plain.{answer_of}
use lbsync.Cluster.Index.{ReadsKeys}
use lbsync.Cluster.Unlisted.{on_olric, tick_key-unlisted}
use lbsync.Cluster.Race.{
  System, done, acquire, read, write, release, pick, init, reading, got, leaving, update, Reach,
  here, later,
}
use lbsync.Cluster.Race.Safety.{Reach-listed}
use lbsync.Cluster.Race.Loss.{AllRefused, refused_loses}
use lbsync.Main.ClusterConfig.{Config, ClusterConfig}
use lbsync.Tests.Fixtures.{codec, env, blobs, node_with, small}

abbrev pub Maps : Type 0
Maps = Text → Text → Option Text

abbrev pub maps : Olric Maps
maps = record {
  new_dmap = λ k o. (ok tt, o);
  dm_get = λ k j o. (answer_of (o k j), o);
  dm_put = λ k j raw o. (ok tt, λ k' j'. written k j raw k' j' (o k' j'));
  lock_with_timeout = λ k j wait ttl o. (ok (λ o'. o'), o);
  members = λ o. (ok 1, o);
  shutdown = λ o. (ok tt, o);
}

abbrev pub held : Maps → Text → Text → Option Text
held o = o

answer_found : (o : Option Text) (raw : Text) → answer_of o ≡ found (ok raw) → o ≡ some raw
answer_found none raw h = cc
answer_found (some raw') raw h = cc

answer_missing : (o : Option Text) → answer_of o ≡ not_found → o ≡ none
answer_missing none h = refl
answer_missing (some raw) h = cc

pub maps-IsOlric : IsOlric maps held
maps-IsOlric = record {
  view-new_dmap = λ k o k' j'. refl;
  view-get = λ k j o k' j'. refl;
  get_found = λ k j raw o h. answer_found (o k j) raw h;
  get_missing = λ k j o h. answer_missing (o k j) h;
  view-put = λ k j raw o k' j' h. refl;
  view-lock = λ k j wait ttl o k' j' ne. refl;
  view-unlock = λ k j wait ttl o o' unlock k' j' h ne.
      sym (ap (λ (f : Maps → Maps). f o' k' j') (ok-injective h));
}

-- Lists of keys of one character.
abbrev joined : Result Text → Text → Result Text
joined (err e) k = err e
joined (ok raw) (c ∷ []) = ok (c ∷ raw)
joined (ok raw) k = err (message (text "unsupported"))

abbrev encode_keys : List Text → Result Text
encode_keys [] = ok []
encode_keys (k ∷ ks) = joined (encode_keys ks) k

abbrev singles : Text → List Text
singles [] = []
singles (c ∷ raw) = (c ∷ []) ∷ singles raw

abbrev pub key_codec : Codec
key_codec = record codec { encode_strings = encode_keys; decode_strings = λ raw. ok (singles raw) }

joined-singles :
    (r : Result Text) (k : Text) (ks : List Text) (raw : Text)
    → joined r k ≡ ok raw
    → ((rest : Text) → r ≡ ok rest → singles rest ≡ ks)
    → singles raw ≡ k ∷ ks
joined-singles (err e) k ks raw h behind = absurd (err-ne-ok h)
joined-singles (ok rest) [] ks raw h behind = absurd (err-ne-ok h)
joined-singles (ok rest) (c ∷ d ∷ k) ks raw h behind = absurd (err-ne-ok h)
joined-singles (ok rest) (c ∷ []) ks raw h behind = rw (← ok-injective h, behind rest refl)

keys_read_back : (ks : List Text) (raw : Text) → encode_keys ks ≡ ok raw → singles raw ≡ ks
keys_read_back [] raw h = ap singles (sym (ok-injective h))
keys_read_back (k ∷ ks) raw h = joined-singles (encode_keys ks) k ks raw h (keys_read_back ks)

pub key_codec-ReadsKeys : ReadsKeys key_codec
key_codec-ReadsKeys ks raw h = ap ok (keys_read_back ks raw h)

-- The map of the kind "b" has the keys "j" and "k".
abbrev pub start_maps : Maps
start_maps k j = none

abbrev pub two_keys : Cluster Maps
two_keys =
    (put key_codec maps (record (small 3 (text "x")) { key = text "j" })
      (record { db = start_maps; dmaps = [] })).1

pub put_succeeds : (put key_codec maps (small 5 (text "y")) two_keys).0 ≡ ok tt
unfolding put open_dmap opened put_raw add_to_index update_index extend_index write_index read_index
    keys_in contains same
put_succeeds = refl

got_small :
    (get key_codec maps (text "b") (text "j") two_keys).0
    ≡ ok (some (record (small 3 (text "x")) { key = text "j" }))
unfolding get read_record record_in put open_dmap opened put_raw add_to_index update_index
    extend_index write_index read_index keys_in contains same
got_small = refl

got_keys : (keys key_codec maps (text "b") two_keys).0 ≡ ok (text "j" ∷ [])
unfolding keys get read_record record_in put open_dmap opened put_raw add_to_index update_index
    extend_index write_index read_index keys_in contains same
got_keys = refl

-- The record is in the map, and the index is empty.
abbrev pub unlisted : Cluster Maps
unlisted = record {
  db = λ k j. written (text "blob") (text "k") (b'b' ∷ b'k' ∷ 5 ∷ 0 ∷ []) k j none;
  dmaps = [];
}

abbrev pub olric_engine : Engine BlobState (Cluster Maps)
olric_engine = record {
  cluster = olric_cluster key_codec maps;
  providers = [];
  interval = pos 30;
  lock_ttl = pos 10;
  has_metrics = true;
  now = λ n. pos n;
  range_order = λ ks. ks;
}

abbrev pub on_unlisted : St BlobState (Cluster Maps)
on_unlisted = record { node = node_with []; cluster = unlisted; readings = 0; events = [] }

unlisted_found : (get key_codec maps (text "blob") (text "k") unlisted).0 ≡ ok (some (small 5 []))
unfolding get read_record record_in open_dmap opened same contains
unlisted_found = refl

tick_key-unlisted_example :
    held
      (tick_key
        (on_olric key_codec maps held maps-IsOlric olric_engine)
        (provider env blobs)
        ((text "k", small 5 []) ∷ [])
        (text "k")
        []
        on_unlisted).1.cluster.db
      (text "blob")
      (text "__lbsync_index__")
    ≡ held unlisted.db (text "blob") (text "__lbsync_index__")
unfolding provider
tick_key-unlisted_example =
    tick_key-unlisted key_codec maps held maps-IsOlric olric_engine (provider env blobs)
      ((text "k", small 5 []) ∷ []) (text "k") [] on_unlisted (small 5 [])
      (unfold lookup same in refl) unlisted_found (text "blob") (text "__lbsync_index__")

-- Node 0 adds its key.
abbrev after_write : System
after_write = record {
  mem = record { index = text "a" ∷ []; holder = none };
  pc =
      update
        (update
          (update (update (init [] (λ i. text "a")).pc 0 (reading true (text "a"))) 0
            (got true (text "a") []))
          0 (leaving true (text "a")))
        0 (done (text "a"));
}

one_node : Reach true (init [] (λ i. text "a")) after_write
unfolding contains
one_node =
    later (later (later (later here (pick 0 (acquire refl))) (pick 0 read)) (pick 0 (write refl)))
      (pick 0 release)

Reach-listed_example : contains (text "a" ∷ []) (text "a") ≡ true
Reach-listed_example = Reach-listed [] (λ i. text "a") after_write 0 (text "a") one_node refl

abbrev names : ℕ → Text
names n = if n == 0 then text "a" else text "b"

refused_loses_example :
    (s : System) × (run : Reach false (init [] names) s) × AllRefused run
    × (s.pc 0 ≡ done (text "a"))
    × (s.pc 1 ≡ done (text "b"))
    × (contains s.mem.index (text "b") ≡ true)
    × (contains s.mem.index (text "a") ≡ false)
refused_loses_example =
    refused_loses [] names (unfold contains in refl) (unfold contains in refl) (unfold same in refl)

abbrev node_config : Config
node_config = record {
  cluster_env = text "lan";
  bind_addr = text "10.0.0.1";
  advertise_addr = [];
  olric_port = pos 3320;
  memberlist_port = pos 3322;
  replica_count = pos 0;
  password = text "secret";
  gossip_key = text "0123456789abcdef";
  insecure = false;
}

abbrev built_config : ClusterConfig
built_config = record {
  env = text "lan";
  bind_addr = text "10.0.0.1";
  bind_port = pos 3320;
  memberlist_port = pos 3322;
  advertise_addr = [];
  peers = text "10.0.0.2" ∷ [];
  password = text "secret";
  gossip_key = text "0123456789abcdef";
  replica_count = pos 2;
}
