-- ===== src/Bundle.antt =====
-- internal/bundle/bundle.go: the order of the versions of certificates, and the version of the
-- engine that internal/modules/certs/certs.go makes of one.
--
-- The times of a certificate are whole seconds.
pub mod Order
pub mod Files
pub mod Parts
pub mod Serve
use lbsync.Prelude.{
  ℤ, pos, negsuc, ltb_ℤ, eqb_ℤ, Text, same, less, Bool, not, ◌∷◌, ◌++◌, if◌then◌else◌,
}
use lbsync.Version.{Version}

-- Version of package bundle
pub record CertVersion : Type 0 where
  pub not_before : ℤ
  pub not_after : ℤ
  pub serial : Text
  pub sha256 : Text

-- strings.Compare
unfoldable pub compare_texts : Text → Text → ℤ
compare_texts a b = if same a b then pos 0 else if less a b then negsuc 0 else pos 1

-- Compare
unfoldable pub compare : CertVersion → CertVersion → ℤ
compare a b =
    if not (eqb_ℤ a.not_before b.not_before)
    then (if ltb_ℤ b.not_before a.not_before then pos 1 else negsuc 0)
    else if not (eqb_ℤ a.not_after b.not_after)
    then (if ltb_ℤ b.not_after a.not_after then pos 1 else negsuc 0)
    else (let c = compare_texts a.serial b.serial in
        if not (eqb_ℤ c (pos 0)) then c else compare_texts a.sha256 b.sha256)

-- Newer
unfoldable pub newer_cert : CertVersion → CertVersion → Bool
newer_cert a b = ltb_ℤ (pos 0) (compare a b)

-- The Version of toRecord
unfoldable pub engine_version : CertVersion → Version
engine_version v = record {
  primary = v.not_before;
  secondary = v.not_after;
  tiebreak = v.serial ++ (b':' ∷ v.sha256);
}
