-- ===== src/Tests/Certs.antt =====
-- The order of certificates on two versions.
use lbsync.Prelude.{◌≡◌, refl, pos, Text, text, same, less, true, false}
use lbsync.Version.{newer}
use lbsync.Bundle.{CertVersion, compare, compare_texts, newer_cert, engine_version}
use lbsync.Bundle.Order.{newer-engine_version}

abbrev cert_with : Text → CertVersion
cert_with serial = record {
  not_before = pos 1;
  not_after = pos 2;
  serial = serial;
  sha256 = text "00ff";
}

newer-engine_version_example :
    newer (engine_version (cert_with (text "1b"))) (engine_version (cert_with (text "1a")))
    ≡ newer_cert (cert_with (text "1b")) (cert_with (text "1a"))
newer-engine_version_example =
    newer-engine_version (cert_with (text "1b")) (cert_with (text "1a")) refl

-- The serial numbers "a" and "a0" stand in the other order in the engine.
shorter_serial :
    (newer (engine_version (cert_with (text "a"))) (engine_version (cert_with (text "a0"))) ≡ true)
    × (newer_cert (cert_with (text "a")) (cert_with (text "a0")) ≡ false)
unfolding newer newer_cert engine_version compare compare_texts same less
shorter_serial = (refl, refl)
