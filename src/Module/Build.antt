-- ===== src/Module/Build.antt =====
-- The modules that `Build` of internal/module/module.go gives, and the name at which it fails.
use lbsync.Prelude.{
  ◌≡◌, ◌⊎◌, refl, inl, inr, Text, Option, none, some, List, [], ◌∷◌, Result, ok, err, Error,
}
use lbsync.Prelude.Dict.{Dict, lookup}
use lbsync.Module.{Module, Config, Factory, build_one, onto_modules, build}

module _ {S : Type 0} (registry : Dict (Factory S)) (cfg : Config) where
  -- The factory that is registered under the name makes the module.
  abbrev pub Makes : Text → Module S → Type 0
  Makes name m = (f : Factory S) × (lookup registry name ≡ some f) × (f cfg ≡ ok m)

  -- The modules of the names, in their order.
  unfoldable pub MakesAll : List Text → List (Module S) → Type 0
  MakesAll [] [] = Unit {0}
  MakesAll (name ∷ names) (m ∷ ms) = Makes name m × MakesAll names ms
  MakesAll _ _ = ⊥

  -- No module can be made of the name: it is not registered, or its factory fails.
  abbrev pub Fails : Text → Type 0
  Fails name =
      (lookup registry name ≡ none)
      ⊎ ((f : Factory S) × (lookup registry name ≡ some f) × (e : Error) × (f cfg ≡ err e))

  -- The names up to the first of which no module can be made.
  unfoldable pub FailsFirst : List Text → Type 0
  FailsFirst [] = ⊥
  FailsFirst (name ∷ names) = Fails name ⊎ (((m : Module S) × Makes name m) × FailsFirst names)

  unfoldable pub BuildOutcome : List Text → Result (List (Module S)) → Type 0
  BuildOutcome names (ok ms) = MakesAll names ms
  BuildOutcome names (err e) = FailsFirst names

  abbrev OneOutcome : Text → Result (Module S) → Type 0
  OneOutcome name (ok m) = Makes name m
  OneOutcome name (err e) = Fails name

  build_one-made :
      (name : Text) (f : Factory S) (r : Result (Module S))
      → lookup registry name ≡ some f
      → f cfg ≡ r
      → OneOutcome name (build_one (some f) name cfg)
  unfolding build_one
  build_one-made name f (ok m) found h = rw (h, build_one) (f, found, h)
  build_one-made name f (err e) found h = rw (h, build_one) (inr (f, found, e, h))

  build_one-Outcome :
      (name : Text) (o : Option (Factory S))
      → lookup registry name ≡ o
      → OneOutcome name (build_one o name cfg)
  build_one-Outcome name none h = unfold build_one in inl h
  build_one-Outcome name (some f) h = build_one-made name f (f cfg) h refl

  onto_modules-Outcome :
      (name : Text) (names : List Text) (one : Result (Module S)) (rest : Result (List (Module S)))
      → OneOutcome name one
      → BuildOutcome names rest
      → BuildOutcome (name ∷ names) (onto_modules one rest)
  unfolding onto_modules BuildOutcome MakesAll FailsFirst
  onto_modules-Outcome name names (err e) rest h k = inl h
  onto_modules-Outcome name names (ok m) (err e) h k = inr ((m, h), k)
  onto_modules-Outcome name names (ok m) (ok ms) h k = (h, k)

  -- Build gives the modules that the registered factories make of the names, one for each and in
  -- their order; it fails only if there is a first name that is not registered or whose factory
  -- fails.
  pub build-Outcome : (names : List Text) → BuildOutcome names (build registry names cfg)
  unfolding build
  build-Outcome [] = unfold BuildOutcome MakesAll in tt
  build-Outcome (name ∷ names) =
      onto_modules-Outcome name names _ _ (build_one-Outcome name (lookup registry name) refl)
        (build-Outcome names)
