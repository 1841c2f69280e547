-- ===== src/Wan/Keys.antt =====
-- The composite keys of internal/wan/wan.go: `storeKey`, and the keys of one kind.
use lbsync.Prelude.{
  ℕ, ◌≡◌, ◌≢◌, refl, Text, same, contains, Bool, false, ◌&&◌, Option, none, some, List, [], ◌∷◌,
  ◌++◌, All, ◌==◌, arith, if◌then◌else◌, not,
}
use lbsync.Wan.{store_key, after_prefix, keys_of_kind}

-- A kind holds no zero byte.
abbrev pub NulFree : Text → Type 0
NulFree = All (λ c. c ≢ 0)

-- Two places share a composite key only if their kinds and their keys are the same, for kinds
-- without a zero byte.
pub same-store_key :
    (k k' j j' : Text)
    → NulFree k
    → NulFree k'
    → same (store_key k j) (store_key k' j') ≡ (same k k' && same j j')
unfolding store_key same
same-store_key [] [] j j' h h' = refl
same-store_key [] (y ∷ k') j j' h h' = ground arith
same-store_key (x ∷ k) [] j j' h h' = ground arith
same-store_key (x ∷ k) (y ∷ k') j j' h h' = ground (arith, same-store_key k k' j j' h.1 h'.1)

abbrev rest_of : Text → Option Text
rest_of [] = none
rest_of (x ∷ xs) = some (x ∷ xs)

after_prefix-nil : (sk : Text) → after_prefix [] sk ≡ rest_of sk
unfolding after_prefix same
after_prefix-nil [] = refl
after_prefix-nil (x ∷ sk) = ground arith

after_prefix-cons :
    (x : ℕ) (p : Text) (y : ℕ) (sk : Text)
    → after_prefix (x ∷ p) (y ∷ sk) ≡ (if y == x then after_prefix p sk else none)
unfolding after_prefix same
after_prefix-cons x p y sk = ground arith

after_prefix-nil_right : (x : ℕ) (p : Text) → after_prefix (x ∷ p) [] ≡ none
unfolding after_prefix same
after_prefix-nil_right x p = ground arith

abbrev is_text : Option Text → Text → Bool
is_text none j = false
is_text (some key) j = same key j

-- The prefix test finds `j` behind the prefix of `k` exactly in the composite key of both, if `j` is
-- not empty.
is_text-after_prefix :
    (k sk j : Text)
    → is_text (after_prefix (k ++ (0 ∷ [])) sk) j ≡ (same sk (store_key k j) && not (same j []))
unfolding store_key same
is_text-after_prefix [] [] j = rw (after_prefix-nil_right 0 [])
is_text-after_prefix [] (y ∷ []) [] =
    ground (arith, after_prefix-cons 0 [] y [], after_prefix-nil [])
is_text-after_prefix [] (y ∷ []) (z ∷ j) =
    ground (arith, after_prefix-cons 0 [] y [], after_prefix-nil [])
is_text-after_prefix [] (y ∷ x ∷ sk) [] =
    ground (arith, after_prefix-cons 0 [] y (x ∷ sk), after_prefix-nil (x ∷ sk))
is_text-after_prefix [] (y ∷ x ∷ sk) (z ∷ j) =
    ground (arith, after_prefix-cons 0 [] y (x ∷ sk), after_prefix-nil (x ∷ sk))
is_text-after_prefix (x ∷ k) [] j = rw (after_prefix-nil_right x (k ++ (0 ∷ [])))
is_text-after_prefix (x ∷ k) (y ∷ sk) j =
    ground (arith, after_prefix-cons x (k ++ (0 ∷ [])) y sk, is_text-after_prefix k sk j)

-- The keys listed for a kind are those, not empty, under which the store holds something of that
-- kind.
pub contains-keys_of_kind :
    (kind : Text) (sks : List Text) (j : Text)
    → contains (keys_of_kind kind sks) j ≡ (contains sks (store_key kind j) && not (same j []))
unfolding keys_of_kind contains
contains-keys_of_kind kind [] j = refl
contains-keys_of_kind kind (sk ∷ sks) j =
    ground (arith, is_text-after_prefix kind sk j, contains-keys_of_kind kind sks j)
