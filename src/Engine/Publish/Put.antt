-- ===== src/Engine/Publish/Put.antt =====
-- The calls of `maybePublish` of internal/engine/engine.go on the cluster.
use lbsync.Prelude.{Bool-cases, inl, inr, List, ◌≡◌, Text, Result, ok, err}
use lbsync.Engine.{Record, Engine, St, Event, report}
use lbsync.Engine.Publish.{put_record}

module _ {P C : Type 0} (e : Engine P C) where
  cluster-report : (news : List Event) (s : St P C) → (report e news s).cluster ≡ s.cluster
  unfolding report
  cluster-report news s = elim (Bool-cases e.has_metrics) [ inl h ↦ rw h | inr h ↦ rw h ]

  pub put_result :
      (kind : Text) (local : Record) (s : St P C) (res : Result (Unit {0}))
      → (e.cluster.put local s.cluster).0 ≡ res
      → (put_record e kind local s).cluster ≡ (e.cluster.put local s.cluster).1
  unfolding put_record
  put_result kind local s (ok tt) h = rw (h, put_record) (cluster-report _ _)
  put_result kind local s (err x) h = rw (h, put_record)

  abbrev pub locked : Text → Text → St P C → St P C
  locked kind key s = record s { cluster = (e.cluster.lock kind key e.lock_ttl s.cluster).1 }
