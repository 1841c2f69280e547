-- ===== src/Prelude/Results.antt =====
-- Go's `(T, error)` results. An error is a message, or one wrapped by `fmt.Errorf("...: %w", err)`.
use mathlib.Core.Path.{◌≡◌}
use lbsync.Prelude.Texts.{Text}

pub data Error : Type 0 where
  message : Text → Error
  wrapped : Text → Error → Error

pub data Result {ℓ} (A : Type ℓ) : Type ℓ where
  ok : A → Result A
  err : Error → Result A

infixl 5 ◌>>=◌
abbrev pub ◌>>=◌ {ℓ κ} : {A : Type ℓ} {B : Type κ} → Result A → (A → Result B) → Result B
ok a >>= f = f a
err e >>= f = err e

pub err-ne-ok {ℓ} : {A : Type ℓ} {e : Error} {a : A} → err e ≡ ok a → ⊥
err-ne-ok h = cc

pub ok-injective {ℓ} : {A : Type ℓ} {a b : A} → ok a ≡ ok b → a ≡ b
ok-injective h = cc
