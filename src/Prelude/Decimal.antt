-- ===== src/Prelude/Decimal.antt =====
-- Numbers in decimal, as package strconv writes and reads them.
use Prim.Native.Nat.{ℕ, zero, suc, ◌+◌, ◌-◌, ◌*◌, ◌/◌, ◌%◌, ◌≤◌, ◌<◌}
use mathlib.Core.Path.{◌≡◌, refl, ◌∙◌, ap}
use mathlib.Core.Logic.{inl, inr}
use mathlib.Core.Bool.{◌&&◌}
use mathlib.Core.Option.{Option, none, some}
use mathlib.Core.List.{[], ◌∷◌}
use native.Mathlib.Omega.{arith}
use lbsync.Prelude.Tests.{ltb, leb, ◌==◌, if◌then◌else◌, Bool-cases}
use lbsync.Prelude.Int.{ℤ, pos, negsuc}
use lbsync.Prelude.Texts.{Text}

-- A number has at most as many digits as its successor says.
unfoldable pub digits_from : ℕ → ℕ → Text → Text
digits_from zero n behind = behind
digits_from (suc fuel) n behind =
    let rest = digits_from fuel (n / 10) ((b'0' + n % 10) ∷ behind) in
    if ltb n 10 then (b'0' + n) ∷ behind else rest

unfoldable pub decimal : ℕ → Text
decimal n = digits_from (suc n) n []

-- strconv.FormatInt(z, 10) and strconv.Itoa
unfoldable pub format_int : ℤ → Text
format_int (pos n) = decimal n
format_int (negsuc n) = b'-' ∷ decimal (suc n)

unfoldable pub digits_value : ℕ → Text → Option ℕ
digits_value n [] = some n
digits_value n (c ∷ s) =
    let rest = digits_value (n * 10 + (c - b'0')) s in
    if leb b'0' c && leb c b'9' then rest else none

-- 2 ^ 63
abbrev pub int64_limit : ℕ
int64_limit = 9223372036854775808

abbrev pub in_pos : Option ℕ → Option ℤ
in_pos none = none
in_pos (some n) = if ltb n int64_limit then some (pos n) else none

abbrev pub negated : ℕ → ℤ
negated zero = pos zero
negated (suc n) = negsuc n

abbrev pub in_neg : Option ℕ → Option ℤ
in_neg none = none
in_neg (some n) = if leb n int64_limit then some (negated n) else none

abbrev pub digits_of : Text → Option ℕ
digits_of [] = none
digits_of (c ∷ s) = digits_value 0 (c ∷ s)

-- strconv.ParseInt(s, 10, 64), where an error is `none`
unfoldable pub parse_int : Text → Option ℤ
parse_int [] = none
parse_int (c ∷ s) =
    if c == b'-'
    then in_neg (digits_of s)
    else if c == b'+'
    then in_pos (digits_of s)
    else in_pos (digits_of (c ∷ s))

-- The integer fits in 64 bits.
abbrev pub InInt64 : ℤ → Type 0
InInt64 (pos n) = n < int64_limit
InInt64 (negsuc n) = n < int64_limit

digits_value-digits_from :
    (fuel n : ℕ) (behind : Text)
    → n < fuel
    → digits_value 0 (digits_from fuel n behind) ≡ digits_value n behind
unfolding digits_from digits_value
digits_value-digits_from zero n behind h = absurd (omega arith)
digits_value-digits_from (suc fuel) n behind h = elim (Bool-cases (ltb n 10)) [
  | inl small ↦ rw small (ground arith)
  | inr large ↦ rw large (
      digits_value-digits_from fuel (n / 10) ((b'0' + n % 10) ∷ behind) (ground arith)
      ∙ ground arith)
]

-- A text that begins with a digit.
abbrev Digit : Text → Type 0
Digit [] = ⊥
Digit (c ∷ s) = (b'0' ≤ c) × (c ≤ b'9')

digits_from-Digit : (fuel n : ℕ) (behind : Text) → n < fuel → Digit (digits_from fuel n behind)
unfolding digits_from
digits_from-Digit zero n behind h = absurd (omega arith)
digits_from-Digit (suc fuel) n behind h = elim (Bool-cases (ltb n 10)) [
  | inl small ↦ rw small (ground arith, ground arith)
  | inr large ↦ rw large (digits_from-Digit fuel (n / 10) ((b'0' + n % 10) ∷ behind) (ground arith))
]

digits_of-Digit : (s : Text) → Digit s → digits_of s ≡ digits_value 0 s
digits_of-Digit [] h = absurd h
digits_of-Digit (c ∷ s) h = refl

parse_int-Digit : (s : Text) → Digit s → parse_int s ≡ in_pos (digits_value 0 s)
unfolding parse_int
parse_int-Digit [] h = absurd h
parse_int-Digit (c ∷ s) (low, high) = ground arith

decimal-value : (n : ℕ) → digits_value 0 (decimal n) ≡ some n
unfolding decimal
decimal-value n = digits_value-digits_from (suc n) n [] (omega arith) ∙ unfold digits_value in refl

decimal-Digit : (n : ℕ) → Digit (decimal n)
unfolding decimal
decimal-Digit n = digits_from-Digit (suc n) n [] (omega arith)

-- A 64-bit integer is read back from its decimal digits.
pub parse_int-format_int : (z : ℤ) → InInt64 z → parse_int (format_int z) ≡ some z
unfolding format_int
parse_int-format_int (pos n) h =
    parse_int-Digit (decimal n) (decimal-Digit n) ∙ ap in_pos (decimal-value n) ∙ ground arith
parse_int-format_int (negsuc n) h =
    unfold parse_int in
    (ap in_neg (digits_of-Digit (decimal (suc n)) (decimal-Digit (suc n)) ∙ decimal-value (suc n))
      ∙ ground arith)
