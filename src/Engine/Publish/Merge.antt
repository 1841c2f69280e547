-- ===== src/Engine/Publish/Merge.antt =====
-- `maybePublish` of internal/engine/engine.go over a cluster whose writes succeed.
use mathlib.Core.Path.{ap₂}
use lbsync.Prelude.{
  sym, Bool-cases, inl, inr, refl, ap, ◌∙◌, ◌≡◌, Text, same, Option, none, some, Result, ok, err,
  ◌&&◌, if◌then◌else◌,
}
use lbsync.Version.{newer}
use lbsync.Engine.{Record, Engine, St, pick_newer}
use lbsync.Engine.Store.{written, IsStore, place_cases}
use lbsync.Engine.Publish.{maybe_publish, publish, recheck, put_record}
use lbsync.Engine.Publish.Put.{put_result, locked}

-- What the cluster holds at (k, j) after `l` was published, if it held `old`: the newer of both at
-- the place of `l`.
abbrev pub merged : Record → Text → Text → Option Record → Option Record
merged l k j old = if same l.kind k && same l.key j then pick_newer (some l) old else old

pub merged-written :
    (l : Record) (k j : Text) (at : Text → Text → Option Record)
    → pick_newer (some l) (at l.kind l.key) ≡ some l
    → written l k j (at k j) ≡ merged l k j (at k j)
merged-written l k j at h = elim (place_cases l k j) [
  | inl (m, p, q) ↦ rw m (sym (ap (pick_newer (some l)) (ap₂ at p q) ∙ h))
  | inr m ↦ rw m
]

pub merged-kept :
    (l : Record) (k j : Text) (at : Text → Text → Option Record)
    → pick_newer (some l) (at l.kind l.key) ≡ at l.kind l.key
    → at k j ≡ merged l k j (at k j)
merged-kept l k j at h = elim (place_cases l k j) [
  | inl (m, p, q) ↦ rw m (ap₂ at p q ∙ sym (ap (pick_newer (some l)) (ap₂ at p q) ∙ h))
  | inr m ↦ rw m
]

module _ {P C : Type 0} (e : Engine P C) (view : C → Text → Text → Option Record)
    (L : IsStore e.cluster view)
    (reliable : (r : Record) (c : C) → (e.cluster.put r c).0 ≡ ok tt) where
  put_record-written :
      (kind : Text) (l : Record) (c : C) (t : St P C) (k j : Text)
      → view t.cluster k j ≡ view c k j
      → view (put_record e kind l t).cluster k j ≡ written l k j (view c k j)
  put_record-written kind l c t k j kept =
      rw (put_result e kind l t _ refl)
        (L.view-put l t.cluster k j (reliable l t.cluster) ∙ ap (written l k j) kept)

  recheck-merged :
      (l : Record) (s : St P C) (k j : Text) (found : Option Record)
      → view s.cluster l.kind l.key ≡ found
      → view (recheck e l.kind l.key l s).cluster k j ≡ merged l k j (view s.cluster k j)
  unfolding recheck pick_newer
  recheck-merged l s k j none h =
      rw (L.get_eq l.kind l.key s.cluster, h, recheck)
        (put_record-written l.kind l s.cluster _ k j (L.view-get l.kind l.key s.cluster k j)
          ∙ merged-written l k j (view s.cluster) (rw h))
  recheck-merged l s k j (some r) h = elim (Bool-cases (newer l.version r.version)) [
    | inl n ↦
        rw (L.get_eq l.kind l.key s.cluster, h, n, recheck)
          (put_record-written l.kind l s.cluster _ k j (L.view-get l.kind l.key s.cluster k j)
            ∙ merged-written l k j (view s.cluster) (rw (h, n)))
    | inr n ↦
        rw (L.get_eq l.kind l.key s.cluster, h, n, recheck)
          (L.view-get l.kind l.key s.cluster k j ∙ merged-kept l k j (view s.cluster) (rw (h, n)))
  ]

  after_lock :
      (l : Record) (s : St P C) (k j : Text)
      → view (recheck e l.kind l.key l (locked e l.kind l.key s)).cluster k j
        ≡ merged l k j (view s.cluster k j)
  after_lock l s k j =
      recheck-merged l (locked e l.kind l.key s) k j _ refl
      ∙ ap (merged l k j) (L.view-lock l.kind l.key e.lock_ttl s.cluster k j)

  publish-merged :
      (l : Record) (s : St P C) (k j : Text) (acquired : Result (C → C))
      → (e.cluster.lock l.kind l.key e.lock_ttl s.cluster).0 ≡ acquired
      → view (publish e l.kind l.key l s).cluster k j ≡ merged l k j (view s.cluster k j)
  unfolding publish
  publish-merged l s k j (ok release) h =
      rw (h, publish, L.view-release l.kind l.key e.lock_ttl s.cluster _ release k j h)
        (after_lock l s k j)
  publish-merged l s k j (err x) h = rw (h, publish) (after_lock l s k j)

  -- If the cluster is lawful and its writes succeed, publishing what was just compared with the
  -- cluster's copy leaves the newer of both at the record's kind and key, and every other place as it
  -- was.
  pub maybe_publish-merged :
      (l : Record) (s : St P C) (k j : Text) (c : Option Record)
      → c ≡ view s.cluster l.kind l.key
      → view (maybe_publish e l.kind l.key (some l) c s).cluster k j
        ≡ merged l k j (view s.cluster k j)
  unfolding maybe_publish pick_newer
  maybe_publish-merged l s k j none h = publish-merged l s k j _ refl
  maybe_publish-merged l s k j (some r) h = elim (Bool-cases (newer l.version r.version)) [
    | inl n ↦ rw (n, maybe_publish) (publish-merged l s k j _ refl)
    | inr n ↦ rw (n, maybe_publish) (merged-kept l k j (view s.cluster) (rw (← h, n)))
  ]
