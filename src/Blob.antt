-- ===== src/Blob.antt =====
-- internal/modules/blob/blob.go: the module for configured files, with the resources of
-- internal/module/module.go.
pub mod Local
pub mod Apply
pub mod Flush
use lbsync.Prelude.{
  ℤ, pos, Text, text, same, Bool, true, false, not, Option, none, some, List, [], ◌∷◌, ◌++◌, Result,
  ok, err, Error, if◌then◌else◌,
}
use lbsync.Prelude.Dict.{Dict, lookup, insert, keys}
use lbsync.Engine.{Record, Provider}
use lbsync.Disk.{Disk, Os, read_file, stat_time}
use lbsync.AtomicFile.{write_atomic, restore}
use lbsync.Hook
use lbsync.Hook.{Machine, Commands, Runner}

-- Kind
abbrev pub blob_kind : Text
blob_kind = text "blob"

-- module.BlobResource
pub record BlobResource : Type 0 where
  pub name : Text
  pub source : Text
  pub dest : Text
  pub strategy : Text
  pub verify : List Text
  pub reload : List Text

-- resource
pub record Resource : Type 0 where
  pub name : Text
  pub source : Text
  pub dest : Text
  pub strategy : Text
  pub runner : Runner

-- The part of provider that does not change.
pub record Blobs : Type 0 where
  pub resources : List Resource
  pub by_name : Dict Resource
  pub host : Text

-- The machine, and provider.pending: the keys of the map, as a set.
pub record BlobState : Type 0 where
  pub machine : Machine
  pub pending : Dict (Unit {0})

-- One round of the loop in Start. No timeout is set.
unfoldable pub make_resource : Bool → BlobResource → Resource
make_resource has_metrics r = record {
  name = r.name;
  source = r.source;
  dest = r.dest;
  strategy = r.strategy;
  runner = record {
    kind = blob_kind;
    verify = r.verify;
    reload = r.reload;
    timeout = pos 0;
    has_metrics = has_metrics;
  };
}

unfoldable pub add_resources : Bool → List BlobResource → Blobs → Blobs
add_resources has_metrics [] p = p
add_resources has_metrics (r ∷ rs) p =
    let res = make_resource has_metrics r in
    add_resources has_metrics rs
      (record p { resources = p.resources ++ (res ∷ []); by_name = insert p.by_name res.name res })

-- m.Start, before the provider is registered.
unfoldable pub start : Bool → List BlobResource → Text → Blobs
start has_metrics resources host =
    add_resources has_metrics resources (record { resources = []; by_name = []; host = host })

-- r.Blobs["data"]: no bytes if it is missing.
abbrev pub or_nil : Option Text → Text
or_nil none = []
or_nil (some data_) = data_

-- A call on the files of a machine.
abbrev pub on_disk : {A : Type 0} → (Disk → Result A × Disk) → Machine → Result A × Machine
on_disk f m = let (res, d) = f m.disk in (res, record m { disk = d })

-- firstErr
abbrev pub first_error : Option Error → Result (Unit {0}) → Option Error
first_error none (err e) = some e
first_error found _ = found

abbrev pub as_result : Option Error → Result (Unit {0})
as_result none = ok tt
as_result (some e) = err e

abbrev pub and_more : Option Record → List Record → List Record
and_more none recs = recs
and_more (some a) recs = a ∷ recs

-- What a provider is given from outside. `sha256_hex` is the hash of crypto/sha256 in hexadecimal,
-- `range_order` the order in which a `range` visits the keys of a map.
pub record Env : Type 0 where
  pub os : Os
  pub commands : Commands
  pub sha256_hex : Text → Text
  pub range_order : List Text → List Text

module _ (v : Env) (p : Blobs) where
  open v use {os, commands, sha256_hex, range_order}

  -- The modification time, unless the strategy is "sha" or it cannot be read.
  unfoldable pub mtime_of : Resource → Machine → ℤ × Machine
  mtime_of r m =
      if not (same r.strategy (text "sha"))
      then (let (res, m') = on_disk (stat_time os r.source) m in
          (elim res [ ok t ↦ t | err _ ↦ pos 0 ], m'))
      else (pos 0, m)

  unfoldable pub make_record : Resource → Text → ℤ → Record
  make_record r data_ mtime = record {
    kind = blob_kind;
    key = r.name;
    version = record { primary = mtime; secondary = pos 0; tiebreak = sha256_hex data_ };
    blobs = (text "data", data_) ∷ [];
    meta = (text "sha256", sha256_hex data_) ∷ [];
    source = p.host;
  }

  -- One round of the loop of Local: a source that cannot be read gives no record.
  unfoldable pub record_read : Resource → Result Text → Machine → Option Record × Machine
  record_read r (err _) m = (none, m)
  record_read r (ok data_) m =
      let (mtime, m') = mtime_of r m in (some (make_record r data_ mtime), m')

  unfoldable pub read_source : Resource → Machine → Option Record × Machine
  read_source r m = let (read, m') = on_disk (read_file os r.source) m in record_read r read m'

  unfoldable pub read_sources : List Resource → Machine → List Record × Machine
  read_sources [] m = ([], m)
  read_sources (r ∷ rs) m =
      let (one, m₁) = read_source r m in
      let (recs, m₂) = read_sources rs m₁ in (and_more one recs, m₂)

  -- p.Local
  unfoldable pub local : BlobState → Result (List Record) × BlobState
  local s =
      let (recs, m) = read_sources p.resources s.machine in
      (ok recs, record { machine = m; pending = [] })

  -- The end of Apply: a change is noted for Flush.
  unfoldable pub note_change : Text → Result Bool → BlobState → Result Bool × BlobState
  note_change key (err e) s = (err e, s)
  note_change key (ok true) s = (ok true, record s { pending = insert s.pending key tt })
  note_change key (ok false) s = (ok false, s)

  -- p.Apply. A resource that is not configured here is skipped. The bits are 0644.
  unfoldable pub apply : Record → BlobState → Result Bool × BlobState
  apply r s = elim (lookup p.by_name r.key) [
    | none ↦ (ok false, s)
    | some res ↦
        let data_ = or_nil (lookup r.blobs (text "data")) in
        let (changed, m) = on_disk (write_atomic os res.dest data_ 420) s.machine in
        note_change r.key changed (record s { machine = m })
  ]

  -- The loop of Flush over the names that are pending.
  unfoldable pub run_hooks : List Text → Option Error → Machine → Option Error × Machine
  run_hooks [] first m = (first, m)
  run_hooks (name ∷ names) first m = elim (lookup p.by_name name) [
    | none ↦ run_hooks names first m
    | some res ↦
        let (ended, m') = Hook.run commands res.runner m in
        run_hooks names (first_error first ended) m'
  ]

  -- p.Flush
  unfoldable pub flush : BlobState → Result (Unit {0}) × BlobState
  flush s =
      let (first, m) = run_hooks (range_order (keys s.pending)) none s.machine in
      (
        as_result first,
        record { machine = m; pending = elim first [ none ↦ [] | some _ ↦ s.pending ] },
      )

  -- The loop of Rollback.
  unfoldable pub restore_all : List Text → Option Error → Machine → Option Error × Machine
  restore_all [] first m = (first, m)
  restore_all (key ∷ ks) first m = elim (lookup p.by_name key) [
    | none ↦ restore_all ks first m
    | some res ↦
        let (ended, m') = on_disk (restore os res.dest) m in
        restore_all ks (first_error first ended) m'
  ]

  -- p.Rollback
  unfoldable pub rollback : List Text → BlobState → Result (Unit {0}) × BlobState
  rollback ks s =
      let (first, m) = restore_all ks none s.machine in (as_result first, record s { machine = m })

  unfoldable pub provider : Provider BlobState
  provider = record {
    kind = blob_kind;
    local = local;
    apply = apply;
    flush = flush;
    rollback = rollback;
  }
