-- ===== src/Engine/Tick.antt =====
-- `tickProvider`, `reconcile` and `Run` of internal/engine/engine.go.
pub mod Merge
pub mod Converge
pub mod Advance
pub mod Unread
pub mod Node
pub mod Reports
use lbsync.Prelude.{
  ℕ, zero, suc, ℤ, Text, Option, none, some, List, [], ◌∷◌, ◌++◌, Result, ok, err, if◌then◌else◌,
}
use lbsync.Prelude.Dict.{Dict, lookup}
use lbsync.Engine.{
  apply_total, applied_ts, rollback_total, reconcile_dur, cluster_members, Record, Provider, Engine,
  St, pick_newer, report,
}
use lbsync.Engine.Gather.{gather_keys}
use lbsync.Engine.Publish.{maybe_publish}

module _ {P C : Type 0} (e : Engine P C) where
  -- The report on a key that was applied reads the clock, if there are metrics.
  unfoldable pub report_applied : Text → Text → St P C → St P C
  report_applied kind key s =
      if e.has_metrics
      then record s {
        readings = suc s.readings;
        events = s.events ++ (apply_total kind ∷ applied_ts kind key (e.now s.readings) ∷ []);
      }
      else s

  -- p.Apply(ctx, *best), with `changed` of tickProvider.
  unfoldable pub apply_best :
      Provider P → Text → Option Record → List Text → St P C → List Text × St P C
  apply_best p key none changed s = (changed, s)
  apply_best p key (some best) changed s =
      let (res, node') = p.apply best s.node in
      let s' = record s { node = node' } in
      elim res [
        | err _ ↦ (changed, s')
        | ok did_change ↦
            if did_change
            then (changed ++ (key ∷ []), report_applied p.kind key s')
            else (changed, s')
      ]

  -- The value of `clusterR, _, _ := e.cl.Get(...)`.
  abbrev pub record_of : Result (Option Record) → Option Record
  record_of (ok found) = found
  record_of (err _) = none

  -- One round of the loop over the keys in tickProvider.
  unfoldable pub tick_key :
      Provider P → Dict Record → Text → List Text → St P C → List Text × St P C
  tick_key p local_by_key key changed s =
      let local = lookup local_by_key key in
      let (got, cluster') = e.cluster.get p.kind key s.cluster in
      let s' = maybe_publish e p.kind key local (record_of got) (record s { cluster = cluster' }) in
      apply_best p key (pick_newer local (record_of got)) changed s'

  unfoldable pub tick_keys :
      Provider P → Dict Record → List Text → List Text → St P C → List Text × St P C
  tick_keys p local_by_key [] changed s = (changed, s)
  tick_keys p local_by_key (key ∷ ks) changed s =
      let (changed', s') = tick_key p local_by_key key changed s in
      tick_keys p local_by_key ks changed' s'

  -- The end of tickProvider: p.Flush, and p.Rollback if that fails.
  unfoldable pub settle : Provider P → List Text → St P C → St P C
  settle p [] s = s
  settle p (key ∷ more) s =
      let (flushed, node') = p.flush s.node in
      let s' = record s { node = node' } in
      elim flushed [
        | ok _ ↦ s'
        | err _ ↦
            let (_, node'') = p.rollback (key ∷ more) s'.node in
            report e (rollback_total p.kind ∷ []) (record s' { node = node'' })
      ]

  -- The deferred report of the duration.
  unfoldable pub report_duration : Text → ℤ → St P C → St P C
  report_duration kind start s =
      if e.has_metrics
      then record s {
        readings = suc s.readings;
        events = s.events ++ (reconcile_dur kind start (e.now s.readings) ∷ []);
      }
      else s

  -- tickProvider
  unfoldable pub tick_provider : Provider P → St P C → St P C
  tick_provider p s =
      let start = e.now s.readings in
      let (gathered, s₁) = gather_keys e p (record s { readings = suc s.readings }) in
      let (changed, s₂) = tick_keys p gathered.0 gathered.1 [] s₁ in
      report_duration p.kind start (settle p changed s₂)

  unfoldable pub tick_providers : List (Provider P) → St P C → St P C
  tick_providers [] s = s
  tick_providers (p ∷ ps) s = tick_providers ps (tick_provider p s)

  -- e.cl.Members(), reported only if there are metrics.
  unfoldable pub report_members : St P C → St P C
  report_members s =
      if e.has_metrics
      then (let (n, cluster') = e.cluster.members s.cluster in
          record s { cluster = cluster'; events = s.events ++ (cluster_members n ∷ []) })
      else s

  -- reconcile
  unfoldable pub reconcile : St P C → St P C
  reconcile s = tick_providers e.providers (report_members s)

  -- Run, until the context is cancelled after so many ticks.
  unfoldable pub run : ℕ → St P C → St P C
  run zero s = reconcile s
  run (suc ticks) s = run ticks (reconcile s)
