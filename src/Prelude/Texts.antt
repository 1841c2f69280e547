-- ===== src/Prelude/Texts.antt =====
-- Go's strings, as the list of their code points, and byte slices, as the list of their bytes. The
-- order of Go's strings compares bytes, which for valid UTF-8 is the order of the code points.
use Prim.Native.Nat.{ℕ}
use Prim.Native.Char.{code}
use Prim.Native.String.{String}
use mathlib.Core.Path.{◌≡◌, refl}
use mathlib.Core.Logic.{◌↔◌}
use mathlib.Core.Bool.{Bool, true, false, ◌&&◌, ◌||◌}
use mathlib.Core.List.{List, [], ◌∷◌, ◌++◌}
use native.Mathlib.Omega.{arith}
use lbsync.Prelude.Tests.{ltb, ◌==◌, if◌then◌else◌}

abbrev pub Text : Type 0
Text = List ℕ

abbrev pub text : String → Text
text String.[] = []
text (String.◌∷◌ c s) = code c ∷ text s

-- a == b
unfoldable pub same : Text → Text → Bool
same [] [] = true
same [] (y ∷ b) = false
same (x ∷ a) [] = false
same (x ∷ a) (y ∷ b) = x == y && same a b

-- a < b
unfoldable pub less : Text → Text → Bool
less [] [] = false
less [] (y ∷ b) = true
less (x ∷ a) [] = false
less (x ∷ a) (y ∷ b) = if ltb x y then true else if ltb y x then false else less a b

pub same_refl : (a : Text) → same a a ≡ true
unfolding same
same_refl [] = refl
same_refl (x ∷ a) = ground (arith, same_refl a)

same-eq : (a b : Text) → same a b ≡ true → a ≡ b
unfolding same
same-eq [] [] h = refl
same-eq [] (y ∷ b) h = cc
same-eq (x ∷ a) [] h = cc
same-eq (x ∷ a) (y ∷ b) h = ground (arith, same-eq a b)

pub same_iff : (a b : Text) → (same a b ≡ true) ↔ (a ≡ b)
same_iff a b = (same-eq a b, λ e. rw e (same_refl b))

pub same-sym : (a b : Text) → same b a ≡ same a b
same-sym a b = ground (arith, same_iff a b, same_iff b a)

pub less_irrefl : (a : Text) → less a a ≡ false
unfolding less
less_irrefl [] = refl
less_irrefl (x ∷ a) = ground (arith, less_irrefl a)

pub less_trans : (a b c : Text) → less a b ≡ true → less b c ≡ true → less a c ≡ true
unfolding less
less_trans [] [] c h k = cc
less_trans [] (y ∷ b) [] h k = cc
less_trans [] (y ∷ b) (z ∷ c) h k = refl
less_trans (x ∷ a) [] c h k = cc
less_trans (x ∷ a) (y ∷ b) [] h k = cc
less_trans (x ∷ a) (y ∷ b) (z ∷ c) h k = ground (arith, less_trans a b c)

-- Two texts that neither precedes are one.
pub less_connex : (a b : Text) → less a b ≡ false → less b a ≡ false → a ≡ b
unfolding less
less_connex [] [] h k = refl
less_connex [] (y ∷ b) h k = cc
less_connex (x ∷ a) [] h k = cc
less_connex (x ∷ a) (y ∷ b) h k = ground (arith, less_connex a b)

unfoldable pub contains : List Text → Text → Bool
contains [] k = false
contains (j ∷ js) k = same j k || contains js k

pub contains-append :
    (js ks : List Text) (k : Text) → contains (js ++ ks) k ≡ (contains js k || contains ks k)
unfolding contains
contains-append [] ks k = refl
contains-append (j ∷ js) ks k = ground (arith, contains-append js ks k)

-- No text is listed twice.
abbrev pub Distinct : List Text → Type 0
Distinct [] = Unit
Distinct (k ∷ ks) = (contains ks k ≡ false) × Distinct ks

pub Distinct-snoc :
    (ks : List Text) (k : Text) → Distinct ks → contains ks k ≡ false → Distinct (ks ++ (k ∷ []))
unfolding contains
Distinct-snoc [] k d fresh = (refl, tt)
Distinct-snoc (j ∷ ks) k d fresh = (
  ground (arith, contains-append ks (k ∷ []) j, same_iff j k, same_iff k j, d.0),
  Distinct-snoc ks k d.1 (ground arith),
)

pub same-append_longer : (a b : Text) (x : ℕ) → same (a ++ (x ∷ b)) a ≡ false
unfolding same
same-append_longer [] b x = refl
same-append_longer (y ∷ a) b x = ground (arith, same-append_longer a b x)

pub same-append_left : (a x y : Text) → same (a ++ x) (a ++ y) ≡ same x y
unfolding same
same-append_left [] x y = refl
same-append_left (c ∷ a) x y = ground (arith, same-append_left a x y)

pub same_ne : (a b : Text) → (a ≡ b → ⊥) → same a b ≡ false
same_ne a b h = by_test (same a b) refl
  where
    by_test : (t : Bool) → same a b ≡ t → same a b ≡ false
    by_test true e = absurd (h ((same_iff a b).0 e))
    by_test false e = e
