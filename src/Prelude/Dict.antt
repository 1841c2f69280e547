-- ===== src/Prelude/Dict.antt =====
-- Go's maps with string keys, as association lists. The order in which a `range` visits the keys is
-- unspecified in Go; what iterates over a map says how its order is modelled.
use mathlib.Core.Path.{◌≡◌, refl}
use mathlib.Core.Option.{Option, none, some}
use mathlib.Core.List.{List, [], ◌∷◌}
use native.Mathlib.Omega.{arith}
use lbsync.Prelude.Tests.{is_some, if◌then◌else◌}
use lbsync.Prelude.Texts.{Text, same, same_iff, contains}

abbrev pub Dict {ℓ} : Type ℓ → Type ℓ
Dict V = List (Text × V)

module _ {ℓ} {V : Type ℓ} where
  -- v, ok := m[k]
  unfoldable pub lookup : Dict V → Text → Option V
  lookup [] k = none
  lookup ((j, v) ∷ m) k = if same j k then some v else lookup m k

  -- m[k] = v
  unfoldable pub insert : Dict V → Text → V → Dict V
  insert [] k v = (k, v) ∷ []
  insert ((j, w) ∷ m) k v = if same j k then (j, v) ∷ m else (j, w) ∷ insert m k v

  -- delete(m, k)
  unfoldable pub erase : Dict V → Text → Dict V
  erase [] k = []
  erase ((j, w) ∷ m) k = let rest = erase m k in if same j k then rest else (j, w) ∷ rest

  unfoldable pub keys : Dict V → List Text
  keys [] = []
  keys ((j, v) ∷ m) = j ∷ keys m

  pub lookup-insert :
      (m : Dict V) (k : Text) (v : V) (j : Text)
      → lookup (insert m k v) j ≡ (if same k j then some v else lookup m j)
  unfolding lookup insert
  lookup-insert [] k v j = refl
  lookup-insert ((i, w) ∷ m) k v j =
      ground (arith, same_iff i k, same_iff i j, same_iff k j, lookup-insert m k v j)

  pub lookup-erase :
      (m : Dict V) (k j : Text) → lookup (erase m k) j ≡ (if same k j then none else lookup m j)
  unfolding lookup erase
  lookup-erase [] k j = ground arith
  lookup-erase ((i, w) ∷ m) k j =
      ground (arith, same_iff i k, same_iff i j, same_iff k j, lookup-erase m k j)

  -- The keys are those that `lookup` finds.
  pub contains-keys : (m : Dict V) (k : Text) → contains (keys m) k ≡ is_some (lookup m k)
  unfolding lookup keys contains
  contains-keys [] k = refl
  contains-keys ((j, v) ∷ m) k = ground (arith, contains-keys m k)
