-- ===== src/Prelude/Steps.antt =====
-- Calls that work on a state and may fail: Go's functions with an error result that change what they
-- are given. A failure keeps the state that the call left.
use mathlib.Core.Path.{◌≡◌, ◌∙◌, refl, ap}
use lbsync.Prelude.Texts.{Text}
use lbsync.Prelude.Results.{Result, ok, err, Error, wrapped, err-ne-ok}

abbrev pub Steps : Type 0 → Type 0 → Type 0
Steps S A = S → Result A × S

infixl 5 ◌>>=◌ ◌>>◌
abbrev pub ◌>>=◌ : {S A B : Type 0} → Steps S A → (A → Steps S B) → Steps S B
◌>>=◌ m f s = let (res, s') = m s in elim res [ ok a ↦ f a s' | err e ↦ (err e, s') ]

abbrev pub ◌>>◌ : {S A B : Type 0} → Steps S A → Steps S B → Steps S B
m >> n = m >>= λ _. n

abbrev pub pure : {S A : Type 0} → A → Steps S A
pure a s = (ok a, s)

-- A call that does not change the state.
abbrev pub lift : {S A : Type 0} → Result A → Steps S A
lift r s = (r, s)

-- fmt.Errorf("...: %w", err)
abbrev pub or_wrap : {S A : Type 0} → Text → Steps S A → Steps S A
or_wrap what m s =
    let (res, s') = m s in elim res [ ok a ↦ (ok a, s') | err e ↦ (err (wrapped what e), s') ]

module _ {S A B : Type 0} (Q : Result B × S → Type 0) where
  pub bind_elim :
      (m : Steps S A) (f : A → Steps S B) (s : S)
      → ((a : A) → (m s).0 ≡ ok a → Q (f a (m s).1))
      → ((e : Error) → (m s).0 ≡ err e → Q (err e, (m s).1))
      → Q ((m >>= f) s)
  bind_elim m f s fine failed =
      (elim (m s).0
          as (λ r. (m s).0 ≡ r → Q (elim r [ ok a ↦ f a (m s).1 | err e ↦ (err e, (m s).1) ])) [
            | ok a ↦ fine a
            | err e ↦ failed e
          ])
        refl

module _ {S A : Type 0} (Q : Result A × S → Type 0) where
  pub or_wrap_elim :
      (what : Text) (m : Steps S A) (s : S)
      → ((a : A) → (m s).0 ≡ ok a → Q (ok a, (m s).1))
      → ((e : Error) → (m s).0 ≡ err e → Q (err (wrapped what e), (m s).1))
      → Q (or_wrap what m s)
  or_wrap_elim what m s fine failed =
      (elim (m s).0
          as (λ r.
            (m s).0 ≡ r
            → Q (elim r [ ok a ↦ (ok a, (m s).1) | err e ↦ (err (wrapped what e), (m s).1) ])) [
              | ok a ↦ fine a
              | err e ↦ failed e
            ])
        refl

-- What succeeds after wrapping succeeded before.
pub or_wrap-eq-ok :
    {S A : Type 0} (what : Text) (m : Steps S A) (s : S) (a : A)
    → (or_wrap what m s).0 ≡ ok a
    → (m s).0 ≡ ok a
or_wrap-eq-ok what m s a =
    or_wrap_elim (λ r. r.0 ≡ ok a → (m s).0 ≡ ok a) what m s (λ b h k. h ∙ k)
      (λ e h k. absurd (err-ne-ok k))

pub or_wrap-state :
    {S A : Type 0} (what : Text) (m : Steps S A) (s : S) → (or_wrap what m s).1 ≡ (m s).1
or_wrap-state what m s = or_wrap_elim (λ r. r.1 ≡ (m s).1) what m s (λ a h. refl) (λ e h. refl)

-- A chain that succeeds went on after its first call.
pub bind-eq-ok :
    {S A B : Type 0} (m : Steps S A) (f : A → Steps S B) (s : S) (b : B)
    → ((m >>= f) s).0 ≡ ok b
    → (a : A) × ((m s).0 ≡ ok a) × ((f a (m s).1).0 ≡ ok b) × (((m >>= f) s).1 ≡ (f a (m s).1).1)
bind-eq-ok {A = A} m f s b =
    bind_elim
      (λ r.
        r.0 ≡ ok b
        → (a : A) × ((m s).0 ≡ ok a) × ((f a (m s).1).0 ≡ ok b) × (r.1 ≡ (f a (m s).1).1))
      m f s (λ a h k. (a, h, k, refl)) (λ e h k. absurd (err-ne-ok k))

pub bind_ok :
    {S A B : Type 0} (m : Steps S A) (f : A → Steps S B) (s : S) (a : A)
    → (m s).0 ≡ ok a
    → (m >>= f) s ≡ f a (m s).1
bind_ok {S} {A} {B} m f s a h =
    ap
      (λ (x : Result A). elim x as (λ _. Result B × S) [
        | ok y ↦ f y (m s).1
        | err e ↦ (err e, (m s).1)
      ])
      h

pub or_wrap_ok :
    {S A : Type 0} (what : Text) (m : Steps S A) (s : S) (a : A)
    → (m s).0 ≡ ok a
    → (or_wrap what m s).0 ≡ ok a
or_wrap_ok what m s a h =
    or_wrap_elim (λ r. r.0 ≡ ok a) what m s (λ b k. cc (h, k)) (λ e k. absurd (cc (h, k)))
