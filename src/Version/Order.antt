-- ===== src/Version/Order.antt =====
-- `Version.Newer` of internal/engine/engine.go as an order.
use lbsync.Prelude.{less_irrefl, less_trans, less_connex, ◌≡◌, true, false, arith}
use lbsync.Version.{Version, newer}

pub newer_irrefl : (v : Version) → newer v v ≡ false
unfolding newer
newer_irrefl v = ground (arith, less_irrefl v.tiebreak)

-- A version that is newer than one that is newer than a third is newer than the third.
pub newer_trans : (a b c : Version) → newer a b ≡ true → newer b c ≡ true → newer a c ≡ true
unfolding newer
newer_trans a b c h k = ground (arith, less_trans c.tiebreak b.tiebreak a.tiebreak)

pub newer_asymm : (a b : Version) → newer a b ≡ true → newer b a ≡ false
newer_asymm a b h = ground (arith, newer_trans a b a, newer_irrefl a)

-- Two versions of which neither is newer are the same version.
pub newer_connex : (a b : Version) → newer a b ≡ false → newer b a ≡ false → a ≡ b
unfolding newer
newer_connex a b h k = ground (arith, less_connex a.tiebreak b.tiebreak)
