-- ===== src/Engine/Publish/Same.antt =====
-- `maybePublish` of internal/engine/engine.go for a record that the cluster holds.
use lbsync.Prelude.{◌≡◌, Text, some}
use lbsync.Version.Order.{newer_irrefl}
use lbsync.Engine.{Record, Engine, St}
use lbsync.Engine.Publish.{maybe_publish}

module _ {P C : Type 0} where
  pub maybe_publish-same :
      (e : Engine P C) (kind key : Text) (r : Record) (s : St P C)
      → maybe_publish e kind key (some r) (some r) s ≡ s
  unfolding maybe_publish
  maybe_publish-same e kind key r s = rw (newer_irrefl r.version)
