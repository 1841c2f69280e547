-- ===== src/Metrics/Accepted.antt =====
-- What internal/engine/engine.go reports to the collectors of internal/metrics/metrics.go.
use lbsync.Prelude.{
  ◌≡◌, refl, Text, same, contains, Bool, true, Option, none, some, List, [], ◌∷◌, length, All,
}
use lbsync.Engine.{Event, Provider, Engine, St}
use lbsync.Engine.Gather.{gather_keys}
use lbsync.Engine.Tick.{tick_provider}
use lbsync.Engine.Tick.Reports.{Holds, tick_provider-Sound}
use lbsync.Metrics.{Collector, Metrics, metric_set, must_register, new, event_target}

-- The names after New has registered its collectors with an empty registry.
abbrev pub names_of : Option (Metrics × List Text) → List Text
names_of none = []
names_of (some (m, names)) = names

-- Every value of a label is valid UTF-8.
abbrev pub AllValid : (Text → Bool) → List Text → Type 0
AllValid valid_string values = All (λ v. valid_string v ≡ true) values

-- `valid_string` is ValidString of unicode/utf8, and `accepts` tells if WithLabelValues of a collector
-- does not panic: it does not, if the values are as many as the labels and valid.
module _ (valid_string : Text → Bool) (accepts : Collector → List Text → Bool)
    (law : (c : Collector) (values : List Text)
      → length c.labels ≡ length values
      → AllValid valid_string values
      → accepts c values ≡ true) where
  -- The collector is registered, and the report does not panic.
  abbrev Takes : Collector × List Text → Type 0
  Takes (c, values) = (contains (names_of (new [])) c.name ≡ true) × (accepts c values ≡ true)

  abbrev pub Accepts : Event → Type 0
  Accepts event = Takes (event_target event)

  reports_of :
      (kind : Text) → valid_string kind ≡ true → Holds kind (λ key. valid_string key ≡ true) Accepts
  unfolding new must_register contains same event_target
  reports_of kind valid = record {
    published = (refl, law metric_set.publish_total (kind ∷ []) refl (valid, tt));
    applied = (refl, law metric_set.apply_total (kind ∷ []) refl (valid, tt));
    stamped = λ key t valid'.
        (refl, law metric_set.applied_ts (kind ∷ key ∷ []) refl (valid, (valid', tt)));
    rolled_back = (refl, law metric_set.rollback_total (kind ∷ []) refl (valid, tt));
    timed = λ from to. (refl, law metric_set.reconcile_dur (kind ∷ []) refl (valid, tt));
  }

  -- If New has registered its collectors with an empty registry, no report of a tick panics, given that
  -- the kind of the provider and every key that the tick gathers are valid UTF-8: the collector of each
  -- report is registered, and WithLabelValues accepts what it is given. WithLabelValues accepts valid
  -- values that are as many as the labels, and none of the reports before the tick did panic.
  pub tick_provider-Accepts :
      {P C : Type 0} (e : Engine P C) (p : Provider P) (s : St P C)
      → valid_string p.kind ≡ true
      → AllValid valid_string (gather_keys e p s).0.1
      → All Accepts s.events
      → All Accepts (tick_provider e p s).events
  tick_provider-Accepts e p s valid keys before =
      tick_provider-Sound e p (λ key. valid_string key ≡ true) Accepts (reports_of p.kind valid) s
        keys before
