-- ===== src/Version.antt =====
-- internal/engine/engine.go: the version of a record, and the order that says which copy wins.
pub mod Order
use lbsync.Prelude.{ℤ, ltb_ℤ, eqb_ℤ, Text, less, Bool, not, if◌then◌else◌}

pub record Version : Type 0 where
  pub primary : ℤ
  pub secondary : ℤ
  pub tiebreak : Text

-- v.Newer(o)
unfoldable pub newer : Version → Version → Bool
newer v o =
    if not (eqb_ℤ v.primary o.primary)
    then ltb_ℤ o.primary v.primary
    else if not (eqb_ℤ v.secondary o.secondary)
    then ltb_ℤ o.secondary v.secondary
    else less o.tiebreak v.tiebreak
