-- ===== src/Engine/Publish/Guarded.antt =====
-- `maybePublish` of internal/engine/engine.go over a cluster with places of its own.
use lbsync.Prelude.{Bool-cases, inl, inr, refl, ◌≡◌, Text, Option, none, some, Result, ok, err}
use lbsync.Version.{newer}
use lbsync.Engine.{Record, Engine, St}
use lbsync.Engine.Store.Guarded.{Keeps, IsForward, answered}
use lbsync.Engine.Publish.{maybe_publish, publish, recheck, put_record}
use lbsync.Engine.Publish.Put.{put_result}
use lbsync.Engine.Store.Advance.{
  Beats, Beats-none, Beats-some, Beats-behind, Advances, Advances-refl, Advances-trans,
  Advances-written, Beats-here,
}

module _ {C : Type 0} (view : C → Text → Text → Option Record) (Valid : C → Type 0)
    (Plain : Text → Text → Type 0) where
  -- At every plain place the cluster holds what it held, or a record that is not older.
  abbrev pub Moves : C → C → Type 0
  Moves c d = Valid d × ((k j : Text) → Plain k j → Advances (view c k j) (view d k j))

  pub Moves-trans : (b c d : C) → Moves b c → Moves c d → Moves b d
  Moves-trans b c d (_, first) (v, then) = (
    v,
    λ k j plain.
        Advances-trans (view b k j) (view c k j) (view d k j) (first k j plain) (then k j plain),
  )

  pub Keeps-Moves : (c d : C) → Keeps view Valid Plain c d → Moves c d
  Keeps-Moves c d (v, kept) = (v, λ k j plain. rw (kept k j plain) (Advances-refl (view c k j)))

  pub Moves-refl : (c : C) → Valid c → Moves c c
  Moves-refl c v = (v, λ k j plain. Advances-refl (view c k j))

module _ {P C : Type 0} (e : Engine P C) (view : C → Text → Text → Option Record)
    (Valid : C → Type 0) (Plain : Text → Text → Type 0)
    (L : IsForward e.cluster view Valid Plain) where
  put_record-Moves :
      (l : Record) (s : St P C)
      → Valid s.cluster
      → Plain l.kind l.key
      → Beats l (view s.cluster l.kind l.key)
      → Moves view Valid Plain s.cluster (put_record e l.kind l s).cluster
  put_record-Moves l s v plain beats = rw (put_result e l.kind l s _ refl) (
    L.put-Valid l s.cluster v plain,
    λ k j pj. elim (L.view-put_failed l s.cluster k j v plain pj) [
      | inl w ↦ rw w (Advances-written l k j _ (Beats-here l k j (view s.cluster) beats))
      | inr kept ↦ rw kept (Advances-refl _)
    ],
  )

  -- The state in which the second look decides.
  abbrev looked : Record → St P C → St P C
  looked l s = record s { cluster = (e.cluster.get l.kind l.key s.cluster).1 }

  looked-Moves :
      (l : Record) (s : St P C)
      → Valid s.cluster
      → Plain l.kind l.key
      → Beats l (view s.cluster l.kind l.key)
      → Moves view Valid Plain s.cluster (put_record e l.kind l (looked l s)).cluster
  looked-Moves l s v plain beats =
      let got = L.get-Keeps l.kind l.key s.cluster v in
      Moves-trans view Valid Plain s.cluster (looked l s).cluster _
        (Keeps-Moves view Valid Plain s.cluster (looked l s).cluster got)
        (put_record-Moves l (looked l s) got.0 plain (rw (got.1 l.kind l.key plain) beats))

  -- What the second look finds is not older than what the cluster holds.
  sees_behind :
      (l : Record) (s : St P C) (r : Result (Option Record))
      → Valid s.cluster
      → Plain l.kind l.key
      → (e.cluster.get l.kind l.key s.cluster).0 ≡ r
      → Beats l (answered r)
      → Beats l (view s.cluster l.kind l.key)
  sees_behind l s r v plain h beats =
      Beats-behind l (view s.cluster l.kind l.key) (answered r)
        (rw h at (L.get_sees l.kind l.key s.cluster v plain)) beats

  recheck-Moves :
      (l : Record) (s : St P C) (r : Result (Option Record))
      → Valid s.cluster
      → Plain l.kind l.key
      → (e.cluster.get l.kind l.key s.cluster).0 ≡ r
      → Moves view Valid Plain s.cluster (recheck e l.kind l.key l s).cluster
  unfolding recheck
  recheck-Moves l s (err x) v plain h =
      rw (h, recheck) (looked-Moves l s v plain (sees_behind l s (err x) v plain h (Beats-none l)))
  recheck-Moves l s (ok none) v plain h =
      rw (h, recheck)
        (looked-Moves l s v plain (sees_behind l s (ok none) v plain h (Beats-none l)))
  recheck-Moves l s (ok (some r)) v plain h = elim (Bool-cases (newer l.version r.version)) [
    | inl n ↦
        rw (h, n, recheck)
          (looked-Moves l s v plain (sees_behind l s (ok (some r)) v plain h (Beats-some l r n)))
    | inr n ↦
        rw (h, n, recheck)
          (Keeps-Moves view Valid Plain s.cluster (looked l s).cluster
            (L.get-Keeps l.kind l.key s.cluster v))
  ]

  abbrev under_lock : Record → St P C → St P C
  under_lock l s = record s { cluster = (e.cluster.lock l.kind l.key e.lock_ttl s.cluster).1 }

  under_lock-Moves :
      (l : Record) (s : St P C)
      → Valid s.cluster
      → Plain l.kind l.key
      → Moves view Valid Plain s.cluster (recheck e l.kind l.key l (under_lock l s)).cluster
  under_lock-Moves l s v plain =
      let held = L.lock-Keeps l.kind l.key e.lock_ttl s.cluster v in
      Moves-trans view Valid Plain s.cluster (under_lock l s).cluster _
        (Keeps-Moves view Valid Plain s.cluster (under_lock l s).cluster held)
        (recheck-Moves l (under_lock l s) _ held.0 plain refl)

  publish-Moves :
      (l : Record) (s : St P C) (acquired : Result (C → C))
      → Valid s.cluster
      → Plain l.kind l.key
      → (e.cluster.lock l.kind l.key e.lock_ttl s.cluster).0 ≡ acquired
      → Moves view Valid Plain s.cluster (publish e l.kind l.key l s).cluster
  unfolding publish
  publish-Moves l s (err x) v plain h = rw (h, publish) (under_lock-Moves l s v plain)
  publish-Moves l s (ok release) v plain h =
      let before = under_lock-Moves l s v plain in
      rw (h, publish)
        (Moves-trans view Valid Plain s.cluster _ _ before (
          Keeps-Moves view Valid Plain _ _
            (L.release-Keeps l.kind l.key e.lock_ttl s.cluster _ release h before.0)))

  -- Whatever was read before.
  pub maybe_publish-Moves :
      (l : Record) (cluster_r : Option Record) (s : St P C)
      → Valid s.cluster
      → Plain l.kind l.key
      → Moves view Valid Plain s.cluster (maybe_publish e l.kind l.key (some l) cluster_r s).cluster
  unfolding maybe_publish
  maybe_publish-Moves l none s v plain = publish-Moves l s _ v plain refl
  maybe_publish-Moves l (some c) s v plain = elim (Bool-cases (newer l.version c.version)) [
    | inl n ↦ rw (n, maybe_publish) (publish-Moves l s _ v plain refl)
    | inr n ↦ rw (n, maybe_publish) (Moves-refl view Valid Plain s.cluster v)
  ]
