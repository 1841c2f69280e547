-- ===== src/Bundle/Order.antt =====
-- The order of certificates in internal/bundle/bundle.go and that of their records in the engine.
use lbsync.Prelude.{
  same-sym, ℕ, ◌≡◌, sym, pos, ltb_ℤ, eqb_ℤ, Text, same, same_iff, less, less_irrefl, less_connex,
  less_trans, [], ◌∷◌, ◌++◌, length, arith, if◌then◌else◌,
}
use lbsync.Version.{newer}
use lbsync.Bundle.{CertVersion, compare_texts, compare, newer_cert, engine_version}

-- The order of two joined texts whose first parts have the same length.
less-joined :
    (a b x y : Text) (sep : ℕ)
    → length a ≡ length b
    → less (a ++ (sep ∷ x)) (b ++ (sep ∷ y)) ≡ (if same a b then less x y else less a b)
unfolding less same
less-joined [] [] x y sep h = ground arith
less-joined [] (c ∷ b) x y sep h = ground arith
less-joined (c ∷ a) [] x y sep h = ground arith
less-joined (c ∷ a) (d ∷ b) x y sep h = ground (arith, less-joined a b x y sep)

-- strings.Compare is positive if the second text is less.
compare_texts-pos : (a b : Text) → ltb_ℤ (pos 0) (compare_texts a b) ≡ less b a
unfolding compare_texts
compare_texts-pos a b =
    ground (arith, less_irrefl a, less_trans a b a, less_connex a b, same_iff a b)

compare_texts-zero : (a b : Text) → eqb_ℤ (compare_texts a b) (pos 0) ≡ same a b
unfolding compare_texts
compare_texts-zero a b = ground arith

-- For serial numbers of the same length, a certificate is newer than another in package bundle exactly
-- if its record is newer in the engine.
pub newer-engine_version :
    (a b : CertVersion)
    → length a.serial ≡ length b.serial
    → newer (engine_version a) (engine_version b) ≡ newer_cert a b
unfolding newer engine_version newer_cert compare
newer-engine_version a b h = ground (
  arith,
  less-joined b.serial a.serial b.sha256 a.sha256 b':' (sym h),
  same-sym a.serial b.serial,
  compare_texts-pos a.serial b.serial,
  compare_texts-zero a.serial b.serial,
  compare_texts-pos a.sha256 b.sha256,
)
