-- ===== src/Metrics.antt =====
-- internal/metrics/metrics.go: the collectors, and their registration with Prometheus.
--
-- A collector is described by its name and its labels. Registering a name twice panics.
pub mod Accepted
use lbsync.Prelude.{Text, text, contains, Option, none, some, List, [], ◌∷◌, ◌++◌, if◌then◌else◌}
use lbsync.Engine.{
  Event, cluster_members, publish_total, apply_total, applied_ts, rollback_total, reconcile_dur,
}

pub data Kind : Type 0 where
  gauge : Kind
  counter : Kind
  histogram : Kind

pub record Collector : Type 0 where
  pub kind : Kind
  pub name : Text
  pub labels : List Text

-- Metrics
pub record Metrics : Type 0 where
  pub cluster_members : Collector
  pub module_enabled : Collector
  pub applied_ts : Collector
  pub not_after : Collector
  pub publish_total : Collector
  pub apply_total : Collector
  pub verify_errors : Collector
  pub reload_errors : Collector
  pub rollback_total : Collector
  pub reconcile_dur : Collector

-- The namespace stands before the name.
abbrev pub collector : Kind → Text → List Text → Collector
collector kind name labels = record { kind = kind; name = text "lbsync_" ++ name; labels = labels }

-- The metric set of New.
abbrev pub metric_set : Metrics
metric_set = record {
  cluster_members = collector gauge (text "cluster_members") [];
  module_enabled = collector gauge (text "module_enabled") (text "module" ∷ []);
  applied_ts = collector gauge (text "applied_timestamp_seconds") (text "kind" ∷ text "key" ∷ []);
  not_after = collector gauge (text "not_after_seconds") (text "kind" ∷ text "key" ∷ []);
  publish_total = collector counter (text "publish_total") (text "kind" ∷ []);
  apply_total = collector counter (text "apply_total") (text "kind" ∷ []);
  verify_errors = collector counter (text "verify_errors_total") (text "kind" ∷ []);
  reload_errors = collector counter (text "reload_errors_total") (text "kind" ∷ []);
  rollback_total = collector counter (text "rollback_total") (text "kind" ∷ []);
  reconcile_dur = collector histogram (text "reconcile_duration_seconds") (text "kind" ∷ []);
}

abbrev pub collectors_of : Metrics → List Collector
collectors_of m =
    m.cluster_members ∷ m.module_enabled ∷ m.applied_ts ∷ m.not_after ∷ m.publish_total
    ∷ m.apply_total ∷ m.verify_errors ∷ m.reload_errors ∷ m.rollback_total ∷ m.reconcile_dur ∷ []

-- reg.MustRegister, on the names that are registered: `none` is a panic.
unfoldable pub must_register : List Collector → List Text → Option (List Text)
must_register [] names = some names
must_register (c ∷ cs) names =
    let rest = must_register cs (c.name ∷ names) in if contains names c.name then none else rest

-- New
unfoldable pub new : List Text → Option (Metrics × List Text)
new names = elim (must_register (collectors_of metric_set) names) [
  | none ↦ none
  | some names' ↦ some (metric_set, names')
]

-- The collector of a report of the engine, and the values for WithLabelValues.
unfoldable pub event_target : Event → Collector × List Text
event_target (cluster_members n) = (metric_set.cluster_members, [])
event_target (publish_total kind) = (metric_set.publish_total, kind ∷ [])
event_target (apply_total kind) = (metric_set.apply_total, kind ∷ [])
event_target (applied_ts kind key t) = (metric_set.applied_ts, kind ∷ key ∷ [])
event_target (rollback_total kind) = (metric_set.rollback_total, kind ∷ [])
event_target (reconcile_dur kind from to) = (metric_set.reconcile_dur, kind ∷ [])
