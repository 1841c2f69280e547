-- ===== src/Engine.antt =====
-- internal/engine/engine.go: records, the interfaces of providers and of the cluster, and the
-- reconcile loop: its functions and their theorems are in the modules below.
--
-- A provider works on the state `P` of its node and the cluster facade on a state `C`. An `error`
-- beside a nil value is a `Result`. The metrics are the list of what was reported to them.
pub mod Pick
pub mod Gather
pub mod Store
pub mod Publish
pub mod Tick
pub mod Fleet
pub mod Race
use lbsync.Prelude.{
  ℕ, ◌*◌, ℤ, pos, ltb_ℤ, Text, Bool, Option, none, some, List, [], ◌∷◌, ◌++◌, Result, if◌then◌else◌,
}
use lbsync.Prelude.Dict.{Dict, keys}
use lbsync.Version.{Version, newer}

-- Record
pub record Record : Type 0 where
  pub kind : Text
  pub key : Text
  pub version : Version
  pub blobs : Dict Text
  pub meta : Dict Text
  pub source : Text

pub record Provider (P : Type 0) : Type 0 where
  pub kind : Text
  pub local : P → Result (List Record) × P
  pub apply : Record → P → Result Bool × P
  pub flush : P → Result (Unit {0}) × P
  pub rollback : List Text → P → Result (Unit {0}) × P

-- `get` gives (rec, true, nil) as `ok (some rec)`, (nil, false, nil) as `ok none`, and
-- (nil, false, e) as `err e`. A lock is given as the function that releases it.
pub record ClusterKv (C : Type 0) : Type 0 where
  pub get : Text → Text → C → Result (Option Record) × C
  pub put : Record → C → Result (Unit {0}) × C
  pub keys : Text → C → Result (List Text) × C
  pub lock : Text → Text → ℤ → C → Result (C → C) × C
  pub members : C → ℕ × C

-- What the code reports to internal/metrics, with its labels.
pub data Event : Type 0 where
  cluster_members : ℕ → Event
  publish_total : Text → Event
  apply_total : Text → Event
  applied_ts : Text → Text → ℤ → Event
  rollback_total : Text → Event
  reconcile_dur : Text → ℤ → ℤ → Event

-- `has_metrics` is e.metrics != nil. `now` gives what the clock shows at each reading, and
-- `range_order` the order in which a `range` visits the keys of a map.
pub record Engine (P C : Type 0) : Type 0 where
  pub cluster : ClusterKv C
  pub providers : List (Provider P)
  pub interval : ℤ
  pub lock_ttl : ℤ
  pub has_metrics : Bool
  pub now : ℕ → ℤ
  pub range_order : List Text → List Text

pub record St (P C : Type 0) : Type 0 where
  pub node : P
  pub cluster : C
  pub readings : ℕ
  pub events : List Event

-- Durations are in nanoseconds.
pub record Options : Type 0 where
  pub interval : ℤ
  pub lock_ttl : ℤ

abbrev pub seconds : ℕ → ℤ
seconds n = pos (n * 1000000000)

abbrev pub or_default : ℤ → ℤ → ℤ
or_default d standard = if ltb_ℤ (pos 0) d then d else standard

-- pickNewer
unfoldable pub pick_newer : Option Record → Option Record → Option Record
pick_newer none b = b
pick_newer (some a) none = some a
pick_newer (some a) (some b) = if newer a.version b.version then some a else some b

module _ {P C : Type 0} where
  -- New
  unfoldable pub new : ClusterKv C → Bool → (ℕ → ℤ) → (List Text → List Text) → Options → Engine P C
  new cl has_metrics now range_order opts = record {
    cluster = cl;
    providers = [];
    interval = or_default opts.interval (seconds 30);
    lock_ttl = or_default opts.lock_ttl (seconds 10);
    has_metrics = has_metrics;
    now = now;
    range_order = range_order;
  }

  -- e.Register
  unfoldable pub register : Engine P C → Provider P → Engine P C
  register e p = record e { providers = e.providers ++ (p ∷ []) }

module _ {P C : Type 0} (e : Engine P C) where
  -- A report, if e.metrics != nil.
  unfoldable pub report : List Event → St P C → St P C
  report news s = if e.has_metrics then record s { events = s.events ++ news } else s
