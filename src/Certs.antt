-- ===== src/Certs.antt =====
-- internal/modules/certs/certs.go: the module for certificates.
pub mod Convert
pub mod Apply
use lbsync.Prelude.{
  ℤ, negsuc, Text, text, Bool, true, false, Option, none, some, List, [], ◌∷◌, ◌++◌, Result, ok,
  err, Error, if◌then◌else◌,
}
use lbsync.Prelude.Steps.{Steps}
use lbsync.Prelude.Decimal.{format_int, parse_int}
use lbsync.Prelude.Dict.{lookup}
use lbsync.Engine.{Record, Provider}
use lbsync.Paths.{join}
use lbsync.Disk.{Disk, Os}
use lbsync.Hook
use lbsync.Hook.{not_after, Machine, Commands, Runner}
use lbsync.Blob.{on_disk, or_nil, first_error, as_result}
use lbsync.Cert.{X509}
use lbsync.Bundle.{CertVersion, engine_version}
use lbsync.Bundle.Files.{Bundle, write_bundle, rollback_bundle, read_lineage}
use lbsync.Discovery.{Cert, Tree, scan_all}

-- Kind
abbrev pub certs_kind : Text
certs_kind = text "certs"

-- module.Config, as far as Start reads it.
pub record Config : Type 0 where
  pub letsencrypt_path : Text
  pub serving_dir : Text
  pub verify_cmd : List Text
  pub reload_cmd : List Text
  pub reload_timeout : ℤ
  pub hostname : Text

-- provider
pub record Certs : Type 0 where
  pub root : Text
  pub serving_dir : Text
  pub host : Text
  pub has_metrics : Bool
  pub runner : Runner

-- m.Start, before the provider is registered.
unfoldable pub start : Bool → Config → Certs
start has_metrics cfg = record {
  root = cfg.letsencrypt_path;
  serving_dir = cfg.serving_dir;
  host = cfg.hostname;
  has_metrics = has_metrics;
  runner = record {
    kind = certs_kind;
    verify = cfg.verify_cmd;
    reload = cfg.reload_cmd;
    timeout = cfg.reload_timeout;
    has_metrics = has_metrics;
  };
}

-- toRecord
unfoldable pub to_record : Bundle → Text → Record
to_record b host = record {
  kind = certs_kind;
  key = b.lineage;
  version = engine_version b.version;
  blobs =
      (text "cert", b.cert_pem)
      ∷ (text "key", b.key_pem)
      ∷ (text "chain", b.chain_pem)
      ∷ (text "full", b.full_pem)
      ∷ [];
  meta =
      (text "domain", b.domain)
      ∷ (text "serial", b.version.serial)
      ∷ (text "sha256", b.version.sha256)
      ∷ (text "not_after", format_int b.version.not_after)
      ∷ [];
  source = host;
}

-- The zero value of bundle.Version: the time at the start of the year 1.
abbrev pub zero_version : CertVersion
zero_version = record {
  not_before = negsuc 62135596799;
  not_after = negsuc 62135596799;
  serial = [];
  sha256 = [];
}

-- fromRecord leaves the version at its zero value.
unfoldable pub from_record : Record → Bundle
from_record r = record {
  lineage = r.key;
  domain = or_nil (lookup r.meta (text "domain"));
  version = zero_version;
  cert_pem = or_nil (lookup r.blobs (text "cert"));
  key_pem = or_nil (lookup r.blobs (text "key"));
  chain_pem = or_nil (lookup r.blobs (text "chain"));
  full_pem = or_nil (lookup r.blobs (text "full"));
}

-- What a provider is given from outside. `sha256_hex` is the hash of crypto/sha256 in hexadecimal.
pub record Env : Type 0 where
  pub os : Os
  pub tree : Tree
  pub x509 : X509
  pub commands : Commands
  pub sha256_hex : Text → Text

-- A lineage that cannot be read is skipped.
abbrev pub and_more : Result Record → List Record → List Record
and_more (err _) recs = recs
and_more (ok r) recs = r ∷ recs

-- The metric NotAfter, if the time can be read.
unfoldable pub report_not_after : Record → Machine → Machine
report_not_after r m = elim (parse_int (or_nil (lookup r.meta (text "not_after")))) [
  | none ↦ m
  | some na ↦ record m { reports = m.reports ++ (not_after certs_kind r.key na ∷ []) }
]

-- The end of Apply.
unfoldable pub noted : Bool → Record → Result Bool → Machine → Result Bool × Machine
noted has_metrics r (err e) m = (err e, m)
noted has_metrics r (ok false) m = (ok false, m)
noted has_metrics r (ok true) m = (ok true, if has_metrics then report_not_after r m else m)

module _ (v : Env) (p : Certs) where
  open v use {os, tree, x509, commands, sha256_hex}

  -- One round of the loop of Local.
  unfoldable pub record_of : Cert → Steps Disk Record
  record_of c d =
      let (res, d') =
        read_lineage os x509 sha256_hex c.fallback_id
          (join (p.root ∷ text "live" ∷ c.fallback_id ∷ [])) d in
      (elim res [ ok b ↦ ok (to_record b p.host) | err e ↦ err e ], d')

  unfoldable pub records_of : List Cert → Disk → List Record × Disk
  records_of [] d = ([], d)
  records_of (c ∷ cs) d =
      let (res, d₁) = record_of c d in let (recs, d₂) = records_of cs d₁ in (and_more res recs, d₂)

  unfoldable pub local_of : Result (List Cert) → Disk → Result (List Record) × Disk
  local_of (err e) d = (err e, d)
  local_of (ok cs) d = let (recs, d') = records_of cs d in (ok recs, d')

  -- p.Local
  unfoldable pub local : Steps Machine (List Record)
  local = on_disk (λ d. local_of (scan_all tree d p.root) d)

  -- p.Apply
  unfoldable pub apply : Record → Steps Machine Bool
  apply r m =
      let b = from_record r in
      let (changed, m') = on_disk (write_bundle os b (join (p.serving_dir ∷ r.key ∷ []))) m in
      noted p.has_metrics r changed m'

  -- p.Flush
  unfoldable pub flush : Steps Machine (Unit {0})
  flush = Hook.run commands p.runner

  -- The loop of Rollback.
  unfoldable pub rollback_all : List Text → Option Error → Machine → Option Error × Machine
  rollback_all [] first m = (first, m)
  rollback_all (key ∷ ks) first m =
      let (ended, m') = on_disk (rollback_bundle os (join (p.serving_dir ∷ key ∷ []))) m in
      rollback_all ks (first_error first ended) m'

  -- p.Rollback
  unfoldable pub rollback : List Text → Steps Machine (Unit {0})
  rollback ks m = let (first, m') = rollback_all ks none m in (as_result first, m')

  unfoldable pub provider : Provider Machine
  provider = record {
    kind = certs_kind;
    local = local;
    apply = apply;
    flush = flush;
    rollback = rollback;
  }
