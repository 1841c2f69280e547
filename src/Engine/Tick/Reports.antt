-- ===== src/Engine/Tick/Reports.antt =====
-- What a tick of internal/engine/engine.go reports to the metrics.
use lbsync.Prelude.{
  suc, ℤ, ◌≡◌, refl, true, false, Bool, Text, Bool-cases, inl, inr, Option, none, some, List, [],
  ◌∷◌, ◌++◌, Result, ok, err, All,
}
use lbsync.Version.{newer}
use lbsync.Prelude.Dict.{Dict, lookup}
use lbsync.Engine.{
  Event, publish_total, apply_total, applied_ts, rollback_total, reconcile_dur, Record, Provider,
  Engine, St, report,
}
use lbsync.Engine.Gather.{gather_keys}
use lbsync.Engine.Publish.{maybe_publish, publish, recheck, put_record}
use lbsync.Engine.Tick.{
  apply_best, report_applied, tick_key, tick_keys, settle, report_duration, tick_provider,
}

All-append : (Q : Event → Type 0) (xs ys : List Event) → All Q xs → All Q ys → All Q (xs ++ ys)
All-append Q [] ys h k = k
All-append Q (x ∷ xs) ys h k = (h.0, All-append Q xs ys h.1 k)

-- `Q` holds of what a tick of a provider of this kind reports, if its keys are as `P` says.
pub record Holds (kind : Text) (P : Text → Type 0) (Q : Event → Type 0) : Type 0 where
  pub published : Q (publish_total kind)
  pub applied : Q (apply_total kind)
  pub stamped : (key : Text) (t : ℤ) → P key → Q (applied_ts kind key t)
  pub rolled_back : Q (rollback_total kind)
  pub timed : (from to : ℤ) → Q (reconcile_dur kind from to)

module _ {P C : Type 0} (e : Engine P C) (p : Provider P) (K : Text → Type 0) (Q : Event → Type 0)
    (H : Holds p.kind K Q) where
  -- Every report so far is as `Q` says.
  abbrev pub Sound : St P C → Type 0
  Sound s = All Q s.events

  report-Sound : (news : List Event) (s : St P C) → All Q news → Sound s → Sound (report e news s)
  unfolding report
  report-Sound news s h k = elim (Bool-cases e.has_metrics) [
    | inl on ↦ rw on (All-append Q s.events news k h)
    | inr off ↦ rw off k
  ]

  put_record-Sound :
      (l : Record) (s : St P C) (res : Result (Unit {0}))
      → (e.cluster.put l s.cluster).0 ≡ res
      → Sound s
      → Sound (put_record e p.kind l s)
  unfolding put_record
  put_record-Sound l s (ok _) h k =
      rw (h, put_record) (report-Sound (publish_total p.kind ∷ []) _ (H.published, tt) k)
  put_record-Sound l s (err x) h k = rw (h, put_record) k

  recheck-Sound :
      (key : Text) (l : Record) (s : St P C) (cur : Result (Option Record))
      → (e.cluster.get p.kind key s.cluster).0 ≡ cur
      → Sound s
      → Sound (recheck e p.kind key l s)
  unfolding recheck
  recheck-Sound key l s (err x) h k = rw (h, recheck) (put_record-Sound l _ _ refl k)
  recheck-Sound key l s (ok none) h k = rw (h, recheck) (put_record-Sound l _ _ refl k)
  recheck-Sound key l s (ok (some r)) h k = elim (Bool-cases (newer l.version r.version)) [
    | inl n ↦ rw (h, recheck, n) (put_record-Sound l _ _ refl k)
    | inr n ↦ rw (h, recheck, n) k
  ]

  publish-Sound :
      (key : Text) (l : Record) (s : St P C) (acquired : Result (C → C))
      → (e.cluster.lock p.kind key e.lock_ttl s.cluster).0 ≡ acquired
      → Sound s
      → Sound (publish e p.kind key l s)
  unfolding publish
  publish-Sound key l s (ok release) h k = rw (h, publish) (recheck-Sound key l _ _ refl k)
  publish-Sound key l s (err x) h k = rw (h, publish) (recheck-Sound key l _ _ refl k)

  maybe_publish-Sound :
      (key : Text) (l c : Option Record) (s : St P C)
      → Sound s
      → Sound (maybe_publish e p.kind key l c s)
  unfolding maybe_publish
  maybe_publish-Sound key none c s k = k
  maybe_publish-Sound key (some l) none s k = publish-Sound key l s _ refl k
  maybe_publish-Sound key (some l) (some c) s k = elim (Bool-cases (newer l.version c.version)) [
    | inl n ↦ rw n (publish-Sound key l s _ refl k)
    | inr n ↦ rw n k
  ]

  report_applied-Sound :
      (key : Text) (s : St P C) → K key → Sound s → Sound (report_applied e p.kind key s)
  unfolding report_applied
  report_applied-Sound key s own k = elim (Bool-cases e.has_metrics) [
    | inl on ↦ rw on (All-append Q s.events _ k (H.applied, (H.stamped key _ own, tt)))
    | inr off ↦ rw off k
  ]

  apply_ends :
      (key : Text) (best : Record) (changed : List Text) (s : St P C) (res : Result Bool)
      → (p.apply best s.node).0 ≡ res
      → K key
      → Sound s
      → Sound (apply_best e p key (some best) changed s).1
  unfolding apply_best
  apply_ends key best changed s (err x) h own k = rw (h, apply_best) k
  apply_ends key best changed s (ok true) h own k =
      rw (h, apply_best) (report_applied-Sound key _ own k)
  apply_ends key best changed s (ok false) h own k = rw (h, apply_best) k

  apply_best-Sound :
      (key : Text) (best : Option Record) (changed : List Text) (s : St P C)
      → K key
      → Sound s
      → Sound (apply_best e p key best changed s).1
  unfolding apply_best
  apply_best-Sound key none changed s own k = k
  apply_best-Sound key (some best) changed s own k = apply_ends key best changed s _ refl own k

  tick_keys-Sound :
      (m : Dict Record) (ks : List Text) (changed : List Text) (s : St P C)
      → All K ks
      → Sound s
      → Sound (tick_keys e p m ks changed s).1
  unfolding tick_keys tick_key
  tick_keys-Sound m [] changed s own k = k
  tick_keys-Sound m (key ∷ ks) changed s own k =
      tick_keys-Sound m ks _ _ own.1
        (apply_best-Sound key _ changed _ own.0 (maybe_publish-Sound key (lookup m key) _ _ k))

  settle_ends :
      (key : Text) (more : List Text) (s : St P C) (res : Result (Unit {0}))
      → (p.flush s.node).0 ≡ res
      → Sound s
      → Sound (settle e p (key ∷ more) s)
  unfolding settle
  settle_ends key more s (ok _) h k = rw (h, settle) k
  settle_ends key more s (err x) h k =
      rw (h, settle) (report-Sound (rollback_total p.kind ∷ []) _ (H.rolled_back, tt) k)

  settle-Sound : (changed : List Text) (s : St P C) → Sound s → Sound (settle e p changed s)
  unfolding settle
  settle-Sound [] s k = k
  settle-Sound (key ∷ more) s k = settle_ends key more s _ refl k

  report_duration-Sound :
      (start : ℤ) (s : St P C) → Sound s → Sound (report_duration e p.kind start s)
  unfolding report_duration
  report_duration-Sound start s k = elim (Bool-cases e.has_metrics) [
    | inl on ↦ rw on (All-append Q s.events _ k (H.timed start _, tt))
    | inr off ↦ rw off k
  ]

  -- What a tick reports is as `Q` says, if the keys that it gathers are as `K` says.
  pub tick_provider-Sound :
      (s : St P C) → All K (gather_keys e p s).0.1 → Sound s → Sound (tick_provider e p s)
  unfolding tick_provider gather_keys
  tick_provider-Sound s own k =
      let found = gather_keys e p (record s { readings = suc s.readings }) in
      let t = tick_keys e p found.0.0 found.0.1 [] found.1 in
      report_duration-Sound (e.now s.readings) (settle e p t.0 t.1)
        (settle-Sound t.0 t.1 (tick_keys-Sound found.0.0 found.0.1 [] found.1 own k))
