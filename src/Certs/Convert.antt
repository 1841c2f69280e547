-- ===== src/Certs/Convert.antt =====
-- The bundles and the records of internal/modules/certs/certs.go.
use lbsync.Prelude.{◌≡◌, refl, Text, text, same, some}
use lbsync.Prelude.Decimal.{InInt64, parse_int, parse_int-format_int}
use lbsync.Prelude.Dict.{lookup}
use lbsync.Blob.{or_nil}
use lbsync.Bundle.Files.{Bundle}
use lbsync.Certs.{to_record, from_record, zero_version}

-- The bundle of a record that was made of a bundle is that bundle without its version, whoever the
-- host is: the four files, the lineage and the domain pass through the cluster as they are.
pub from_record-to_record :
    (b : Bundle) (host : Text)
    → from_record (to_record b host) ≡ record b { version = zero_version }
unfolding from_record to_record lookup same
from_record-to_record b host = refl

-- The time that a record carries in decimal is that of its bundle.
pub not_after-to_record :
    (b : Bundle) (host : Text)
    → InInt64 b.version.not_after
    → parse_int (or_nil (lookup (to_record b host).meta (text "not_after")))
      ≡ some b.version.not_after
unfolding to_record lookup same
not_after-to_record b host h = parse_int-format_int b.version.not_after h
