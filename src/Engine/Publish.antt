-- ===== src/Engine/Publish.antt =====
-- `maybePublish` of internal/engine/engine.go.
pub mod Put
pub mod Merge
pub mod Guarded
pub mod Same
use lbsync.Prelude.{Text, Option, none, some, [], ◌∷◌, ok, err, if◌then◌else◌}
use lbsync.Version.{newer}
use lbsync.Engine.{publish_total, Record, Engine, St, report}

module _ {P C : Type 0} (e : Engine P C) where
  -- e.cl.Put, with its report
  unfoldable pub put_record : Text → Record → St P C → St P C
  put_record kind local s =
      let (res, cluster') = e.cluster.put local s.cluster in
      let s' = record s { cluster = cluster' } in
      elim res [ ok _ ↦ report e (publish_total kind ∷ []) s' | err _ ↦ s' ]

  -- The second look of maybePublish, under the lock.
  unfoldable pub recheck : Text → Text → Record → St P C → St P C
  recheck kind key local s =
      let (cur, cluster') = e.cluster.get kind key s.cluster in
      let s' = record s { cluster = cluster' } in
      elim cur [
        | err _ ↦ put_record kind local s'
        | ok found ↦ elim found [
          | none ↦ put_record kind local s'
          | some r ↦ if newer local.version r.version then put_record kind local s' else s'
        ]
      ]

  -- A lock that is not acquired does not stop the publication. The release is deferred.
  unfoldable pub publish : Text → Text → Record → St P C → St P C
  publish kind key local s =
      let (acquired, cluster') = e.cluster.lock kind key e.lock_ttl s.cluster in
      let s' = recheck kind key local (record s { cluster = cluster' }) in
      elim acquired [ ok release ↦ record s' { cluster = release s'.cluster } | err _ ↦ s' ]

  -- maybePublish
  unfoldable pub maybe_publish : Text → Text → Option Record → Option Record → St P C → St P C
  maybe_publish kind key none cluster_r s = s
  maybe_publish kind key (some local) none s = publish kind key local s
  maybe_publish kind key (some local) (some c) s =
      if newer local.version c.version then publish kind key local s else s
