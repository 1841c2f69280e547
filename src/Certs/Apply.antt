-- ===== src/Certs/Apply.antt =====
-- What `Apply` of internal/modules/certs/certs.go reports.
use mathlib.Core.List.{append-nil}
use lbsync.Prelude.{
  ◌≡◌, Text, same, Bool, Bool-cases, inl, inr, true, false, List, [], ◌∷◌, ◌++◌, Result, ok, err,
  if◌then◌else◌,
}
use lbsync.Prelude.Decimal.{InInt64}
use lbsync.Prelude.Dict.{lookup}
use lbsync.Paths.{join}
use lbsync.Hook.{Report, not_after, Machine}
use lbsync.Bundle.Files.{Bundle, write_bundle, parts_of}
use lbsync.Certs.{Env, Certs, certs_kind, to_record, from_record, report_not_after, noted, apply}
use lbsync.Certs.Convert.{not_after-to_record}

-- What is reported to the metrics: the time at which the certificate ends, if it was written and
-- there are metrics.
unfoldable pub not_after_reports : Bool → Bundle → Result Bool → List Report
not_after_reports has_metrics b (err e) = []
not_after_reports has_metrics b (ok false) = []
not_after_reports has_metrics b (ok true) =
    if has_metrics then not_after certs_kind b.lineage b.version.not_after ∷ [] else []

module _ (v : Env) (p : Certs) (b : Bundle) (host : Text) (fits : InInt64 b.version.not_after) where
  reported :
      (m : Machine)
      → report_not_after (to_record b host) m ≡ record m {
        reports = m.reports ++ (not_after certs_kind b.lineage b.version.not_after ∷ []);
      }
  unfolding report_not_after to_record
  reported m = rw (not_after-to_record b host fits, report_not_after)

  noted-reported :
      (r : Result Bool) (m : Machine)
      → noted p.has_metrics (to_record b host) r m
        ≡ (r, record m { reports = m.reports ++ not_after_reports p.has_metrics b r })
  unfolding noted not_after_reports
  noted-reported (err e) m = rw append-nil
  noted-reported (ok false) m = rw append-nil
  noted-reported (ok true) m = elim (Bool-cases p.has_metrics) [
    | inl h ↦ rw (h, reported m)
    | inr h ↦ rw (h, append-nil)
  ]

  -- Apply, given a record that toRecord made of a bundle on any host: it writes the bundle's files
  -- into the directory of its lineage and ends as this write does, and what it reports to the metrics,
  -- if they are kept and the files changed, is the very time at which the bundle's certificate ends,
  -- read back from its decimal digits. The time is a 64-bit integer.
  pub apply-to_record :
      (m : Machine)
      → let written = write_bundle v.os b (join (p.serving_dir ∷ b.lineage ∷ [])) m.disk in
        apply v p (to_record b host) m ≡ (
          written.0,
          record m {
            disk = written.1;
            reports = m.reports ++ not_after_reports p.has_metrics b written.0;
          },
        )
  unfolding apply to_record from_record write_bundle parts_of lookup same
  apply-to_record m = noted-reported _ _
