-- ===== src/Paths/Plain.antt =====
-- filepath.Join of a directory and a name.
use mathlib.Core.List.{reverse-cons, append_assoc}
use lbsync.Prelude.{
  ◌≡◌, ◌≢◌, ◌∙◌, refl, sym, ap, inl, inr, arith, ℕ, Text, text, same, Bool, Bool-cases, ◌==◌, true,
  false, List, [], ◌∷◌, ◌++◌, if◌then◌else◌,
}
use lbsync.Main.Strings.{split, onto_first}
use lbsync.Paths.{has, onto_kept, kept_of, joined, is_rooted, or_dot, clean, join, slashed, within}

-- A name that is one element of a path.
pub record IsPlain (name : Text) : Type 0 where
  pub nonempty : same name [] ≡ false
  pub not_dot : same name (text ".") ≡ false
  pub not_up : same name (text "..") ≡ false
  pub no_slash : has b'/' name ≡ false

onto_first-append :
    (c : ℕ) (xs ys : List Text) → xs ≢ [] → onto_first c (xs ++ ys) ≡ onto_first c xs ++ ys
onto_first-append c [] ys h = absurd (h refl)
onto_first-append c (x ∷ xs) ys h = refl

first-ne : (c : ℕ) (xs : List Text) → onto_first c xs ≢ []
first-ne c [] = λ h. cc
first-ne c (x ∷ xs) = λ h. cc

split-ne : (sep : ℕ) (a : Text) → split sep a ≢ []
unfolding split
split-ne sep [] = λ h. cc
split-ne sep (c ∷ a) = elim (Bool-cases (c == sep)) [
  | inl e ↦ rw e (λ h. cc)
  | inr e ↦ rw e (first-ne c (split sep a))
]

split-append : (sep : ℕ) (a b : Text) → split sep (a ++ (sep ∷ b)) ≡ split sep a ++ split sep b
unfolding split
split-append sep [] b = ground arith
split-append sep (c ∷ a) b = elim (Bool-cases (c == sep)) [
  | inl e ↦ rw (e, split-append sep a b)
  | inr e ↦
      rw (e, split-append sep a b)
        (onto_first-append c (split sep a) (split sep b) (split-ne sep a))
]

split-plain : (name : Text) → has b'/' name ≡ false → split b'/' name ≡ name ∷ []
unfolding split has
split-plain [] h = refl
split-plain (c ∷ a) h = rw (split-plain a (ground arith)) (ground arith)

kept_of-append :
    (rooted : Bool) (kept xs ys : List Text)
    → kept_of rooted kept (xs ++ ys) ≡ kept_of rooted (kept_of rooted kept xs) ys
unfolding kept_of
kept_of-append rooted kept [] ys = refl
kept_of-append rooted kept (x ∷ xs) ys = kept_of-append rooted (onto_kept rooted kept x) xs ys

kept_of-plain :
    (rooted : Bool) (kept : List Text) (name : Text)
    → IsPlain name
    → kept_of rooted kept (name ∷ []) ≡ name ∷ kept
unfolding kept_of onto_kept
kept_of-plain rooted kept name p = rw (p.nonempty, p.not_dot, p.not_up)

joined-snoc : (xs : List Text) (name : Text) → joined (xs ++ (name ∷ [])) ≡ slashed xs ++ name
unfolding joined slashed
joined-snoc [] name = refl
joined-snoc (x ∷ []) name = sym (append_assoc x (b'/' ∷ []) name)
joined-snoc (x ∷ (y ∷ xs)) name =
    ap (λ (t : Text). x ++ (b'/' ∷ t)) (joined-snoc (y ∷ xs) name)
    ∙ sym (append_assoc x (b'/' ∷ slashed (y ∷ xs)) name)

or_dot-name :
    (rooted : Bool) (s name : Text)
    → same name [] ≡ false
    → or_dot rooted (s ++ name) ≡ (if rooted then b'/' ∷ s else s) ++ name
unfolding same
or_dot-name true s name h = refl
or_dot-name false [] [] h = cc
or_dot-name false [] (c ∷ name) h = refl
or_dot-name false (x ∷ s) name h = refl

kept_last :
    (rooted : Bool) (dir name : Text)
    → IsPlain name
    → kept_of rooted [] (split b'/' (dir ++ (b'/' ∷ name)))
      ≡ name ∷ kept_of rooted [] (split b'/' dir)
kept_last rooted dir name p =
    rw (split-append b'/' dir name, split-plain name p.no_slash, kept_of-append)
      (kept_of-plain rooted _ name p)

is_rooted-plain : (name : Text) → has b'/' name ≡ false → is_rooted name ≡ false
unfolding has
is_rooted-plain [] h = refl
is_rooted-plain (c ∷ name) h = ground arith

clean-within :
    (c : ℕ) (d name : Text)
    → IsPlain name
    → clean ((c ∷ d) ++ (b'/' ∷ name)) ≡ within (c ∷ d) ++ name
unfolding clean within
clean-within c d name p =
    rw (kept_last (c == b'/') (c ∷ d) name p, reverse-cons, joined-snoc)
      (or_dot-name (c == b'/') _ name p.nonempty)

clean-plain : (name : Text) → IsPlain name → clean name ≡ name
unfolding clean joined
clean-plain name p =
    rw (is_rooted-plain name p.no_slash, split-plain name p.no_slash, kept_of-plain false [] name p)
      (or_dot-name false [] name p.nonempty)

-- The path of a plain name in a directory is the name behind what depends on the directory only.
pub join-plain : (dir name : Text) → IsPlain name → join (dir ∷ name ∷ []) ≡ within dir ++ name
unfolding join joined same
join-plain [] name p =
    rw (p.nonempty, clean-plain name p) (unfold within split kept_of onto_kept slashed in refl)
join-plain (c ∷ d) name p = clean-within c d name p
