-- ===== src/Cluster/Unlisted.antt =====
-- A record whose key did not get into the index of internal/cluster/cluster.go.
use lbsync.Prelude.{◌≡◌, ◌∙◌, ap, Text, Option, some, List, ok}
use lbsync.Prelude.Dict.{Dict, lookup}
use lbsync.Engine.{Record, Provider, Engine, St}
use lbsync.Engine.Publish.Same.{maybe_publish-same}
use lbsync.Engine.Tick.{tick_key}
use lbsync.Engine.Tick.Merge.{cluster-apply_best}
use lbsync.Wan.{Codec}
use lbsync.Cluster.{Olric, Cluster, get, olric_cluster}
use lbsync.Cluster.Laws.{IsOlric}
use lbsync.Cluster.Read.{view-get}

module _ {P : Type 0} (codec : Codec) {O : Type 0} (olric : Olric O)
    (view : O → Text → Text → Option Text) (L : IsOlric olric view) where
  -- An engine that runs on the maps.
  abbrev pub on_olric : Engine P (Cluster O) → Engine P (Cluster O)
  on_olric e = record e { cluster = olric_cluster codec olric }

  -- Whether or not the index lists the key of a record that the maps hold, a round of the engine for
  -- that key, on a node that has the same record, leaves every map as it is: a key that is not listed
  -- is not listed by publishing the record again.
  pub tick_key-unlisted :
      (e : Engine P (Cluster O)) (p : Provider P) (m : Dict Record) (key : Text)
      (changed : List Text) (s : St P (Cluster O)) (r : Record)
      → lookup m key ≡ some r
      → (get codec olric p.kind key s.cluster).0 ≡ ok (some r)
      → (k j : Text)
      → view (tick_key (on_olric e) p m key changed s).1.cluster.db k j ≡ view s.cluster.db k j
  unfolding tick_key olric_cluster
  tick_key-unlisted e p m key changed s r mine stored k j =
      ap (λ (c : Cluster O). view c.db k j) (cluster-apply_best (on_olric e) p key _ changed _).0
      ∙ rw (mine, stored, maybe_publish-same (on_olric e) p.kind key r _)
          (view-get codec olric view L p.kind key s.cluster k j)
