-- ===== src/Engine/Tick/Unread.antt =====
-- `tickProvider` of internal/engine/engine.go if the cluster cannot be read: the errors of Get are
-- ignored.
use lbsync.Prelude.{
  ◌≡◌, ℤ, List, refl, ap, ◌∙◌, Text, same_refl, true, Option, some, Result, ok, err, Error,
}
use lbsync.Version.{newer}
use lbsync.Engine.Store.{written}
use lbsync.Engine.Store.Advance.{Advances}
use lbsync.Prelude.Dict.{Dict, lookup}
use lbsync.Engine.{Provider, Record, Engine, St}
use lbsync.Engine.Publish.{maybe_publish, publish, recheck}
use lbsync.Engine.Publish.Put.{put_result}
use lbsync.Engine.Tick.{tick_key}
use lbsync.Engine.Tick.Merge.{cluster-apply_best}

-- The deferred release of the lock, if it was acquired.
abbrev pub released : {C : Type 0} → Result (C → C) → C → C
released (ok release) c = release c
released (err x) c = c

module _ {P C : Type 0} (e : Engine P C) where
  -- The states of the cluster after the lock was asked for, and after the second look.
  abbrev pub asked : Text → Text → C → C
  asked kind key c = (e.cluster.lock kind key e.lock_ttl c).1

  abbrev pub looked : Text → Text → C → C
  looked kind key c = (e.cluster.get kind key (asked kind key c)).1

  recheck-unread :
      (kind key : Text) (l : Record) (s : St P C) (x : Error)
      → (e.cluster.get kind key s.cluster).0 ≡ err x
      → (recheck e kind key l s).cluster ≡ (e.cluster.put l (e.cluster.get kind key s.cluster).1).1
  unfolding recheck
  recheck-unread kind key l s x h = rw (h, recheck) (put_result e kind l _ _ refl)

  abbrev under_lock : Text → Text → St P C → St P C
  under_lock kind key s = record s { cluster = asked kind key s.cluster }

  publish-unread :
      (kind key : Text) (l : Record) (s : St P C) (x : Error) (acquired : Result (C → C))
      → (e.cluster.get kind key (asked kind key s.cluster)).0 ≡ err x
      → (e.cluster.lock kind key e.lock_ttl s.cluster).0 ≡ acquired
      → (publish e kind key l s).cluster
        ≡ released acquired (e.cluster.put l (looked kind key s.cluster)).1
  unfolding publish
  publish-unread kind key l s x (ok release) bad h =
      rw (h, publish) (ap release (recheck-unread kind key l (under_lock kind key s) x bad))
  publish-unread kind key l s x (err y) bad h =
      rw (h, publish) (recheck-unread kind key l (under_lock kind key s) x bad)

  tick_key-unread :
      (p : Provider P) (m : Dict Record) (key : Text) (changed : List Text) (s : St P C)
      (l : Record)
      → lookup m key ≡ some l
      → ((c : C) → (x : Error) × ((e.cluster.get p.kind key c).0 ≡ err x))
      → let c = (e.cluster.get p.kind key s.cluster).1 in
        (tick_key e p m key changed s).1.cluster
        ≡ released
            (e.cluster.lock p.kind key e.lock_ttl c).0
            (e.cluster.put l (looked p.kind key c)).1
  unfolding tick_key maybe_publish
  tick_key-unread p m key changed s l mine unread =
      let s' = record s { cluster = (e.cluster.get p.kind key s.cluster).1 } in
      let (x, bad) = unread s.cluster in
      let (y, bad') = unread (asked p.kind key s'.cluster) in
      (cluster-apply_best e p key _ changed _).0
      ∙ rw (mine, bad) (publish-unread p.kind key l s' y _ bad' refl)

  -- A cluster that takes writes and answers no reads: a put replaces the one record that it names, and
  -- neither reads nor locks change a record.
  pub record TakesWrites (view : C → Text → Text → Option Record) : Type 0 where
    pub unread : (k j : Text) (c : C) → (x : Error) × ((e.cluster.get k j c).0 ≡ err x)
    pub view-get :
        (k j : Text) (c : C) (k' j' : Text) → view (e.cluster.get k j c).1 k' j' ≡ view c k' j'
    pub view-lock :
        (k j : Text) (ttl : ℤ) (c : C) (k' j' : Text)
        → view (e.cluster.lock k j ttl c).1 k' j' ≡ view c k' j'
    pub view-release :
        (k j : Text) (ttl : ℤ) (c d : C) (release : C → C) (k' j' : Text)
        → (e.cluster.lock k j ttl c).0 ≡ ok release
        → view (release d) k' j' ≡ view d k' j'
    pub view-put :
        (r : Record) (c : C) (k' j' : Text)
        → view (e.cluster.put r c).1 k' j' ≡ written r k' j' (view c k' j')

  view-released :
      (view : C → Text → Text → Option Record) (T : TakesWrites view) (kind key : Text) (c d : C)
      (acquired : Result (C → C)) (k j : Text)
      → (e.cluster.lock kind key e.lock_ttl c).0 ≡ acquired
      → view (released acquired d) k j ≡ view d k j
  view-released view T kind key c d (ok release) k j h =
      T.view-release kind key e.lock_ttl c d release k j h
  view-released view T kind key c d (err x) k j h = refl

  after_unread :
      (view : C → Text → Text → Option Record)
      → TakesWrites view
      → (p : Provider P) (m : Dict Record) (changed : List Text) (s : St P C) (l : Record)
      → lookup m l.key ≡ some l
      → (k j : Text)
      → view (tick_key e p m l.key changed s).1.cluster k j ≡ written l k j (view s.cluster k j)
  after_unread view T p m changed s l mine k j =
      let c = (e.cluster.get p.kind l.key s.cluster).1 in
      ap (λ (d : C). view d k j)
        (tick_key-unread p m l.key changed s l mine (λ d. T.unread p.kind l.key d))
      ∙ view-released view T p.kind l.key c (e.cluster.put l (looked p.kind l.key c)).1
          (e.cluster.lock p.kind l.key e.lock_ttl c).0 k j refl
      ∙ T.view-put l (looked p.kind l.key c) k j
      ∙ ap (written l k j) (
          T.view-get p.kind l.key (asked p.kind l.key c) k j
          ∙ T.view-lock p.kind l.key e.lock_ttl c k j
          ∙ T.view-get p.kind l.key s.cluster k j)

  written_here : (l : Record) (old : Option Record) → written l l.kind l.key old ≡ some l
  written_here l old = rw (same_refl l.kind, same_refl l.key)

  goes_back :
      (l held : Record) → newer held.version l.version ≡ true → ¬ Advances (some held) (some l)
  goes_back l held order (c, e', old) = cc (e', order, old)

  -- A node's record at a key replaces whatever record the cluster holds there, a newer one too, if the
  -- cluster answers no reads but takes writes: if the record that the cluster held was newer, then
  -- after the round of that key it holds the older one of the node, and has gone back. No other
  -- record changes.
  pub unread_regresses :
      (view : C → Text → Text → Option Record)
      → TakesWrites view
      → (p : Provider P) (m : Dict Record) (changed : List Text) (s : St P C) (l held : Record)
      → lookup m l.key ≡ some l
      → view s.cluster l.kind l.key ≡ some held
      → newer held.version l.version ≡ true
      → let now = (tick_key e p m l.key changed s).1.cluster in
        ¬ Advances (view s.cluster l.kind l.key) (view now l.kind l.key)
        × ((k j : Text) → view now k j ≡ written l k j (view s.cluster k j))
  unread_regresses view T p m changed s l held mine before order =
      let all = after_unread view T p m changed s l mine in
      let replaced = all l.kind l.key ∙ written_here l (view s.cluster l.kind l.key) in
      (λ back. goes_back l held order (rw (before, replaced) at back), all)
