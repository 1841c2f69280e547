-- ===== src/Main/ParseList/Join.antt =====
-- `parseList` of cmd/lbsync/main.go reads back what was joined by commas.
use lbsync.Prelude.{
  ℕ, ◌≡◌, ◌≢◌, ◌∙◌, inl, inr, refl, sym, ap, Text, same, same_iff, Bool-cases, false, List, [], ◌∷◌,
  ◌++◌, All, arith,
}
use mathlib.Core.List.{reverse, reverse-reverse, reverse-cons}
use lbsync.Main.Strings.{is_space, trim_left, trim_space, split}
use lbsync.Main.ParseList.{keep_parts, parse_list}

-- The text that lists the items.
unfoldable pub join : List Text → Text
join [] = []
join (a ∷ []) = a
join (a ∷ b ∷ items) = a ++ (b',' ∷ join (b ∷ items))

-- An item as the list keeps it: not empty, without a comma, and with no space at either end.
pub record IsItem (a : Text) : Type 0 where
  pub nonempty : a ≢ []
  pub trimmed : trim_space a ≡ a
  pub no_comma : All (λ c. c ≢ b',') a

split-comma :
    (a rest : Text) → All (λ c. c ≢ b',') a → split b',' (a ++ (b',' ∷ rest)) ≡ a ∷ split b',' rest
unfolding split
split-comma [] rest h = refl
split-comma (c ∷ a) rest h = rw (split-comma a rest h.1) (ground arith)

split-alone : (a : Text) → All (λ c. c ≢ b',') a → split b',' a ≡ a ∷ []
unfolding split
split-alone [] h = refl
split-alone (c ∷ a) h = rw (split-alone a h.1) (ground arith)

split-join :
    (a : Text) (items : List Text)
    → All IsItem (a ∷ items)
    → split b',' (join (a ∷ items)) ≡ a ∷ items
unfolding join
split-join a [] (one, more) = split-alone a one.no_comma
split-join a (b ∷ items) (one, more) =
    split-comma a (join (b ∷ items)) one.no_comma
    ∙ ap (λ (x : List Text). a ∷ x) (split-join b items more)

keep_parts-items : (items : List Text) → All IsItem items → keep_parts items ≡ items
unfolding keep_parts
keep_parts-items [] h = refl
keep_parts-items (a ∷ items) (one, more) = elim (Bool-cases (same a [])) [
  | inl e ↦ absurd (one.nonempty ((same_iff a []).0 e))
  | inr e ↦ rw (one.trimmed, e) (ap (λ (x : List Text). a ∷ x) (keep_parts-items items more))
]

-- A text that trims to nothing begins with nothing but space.
trim_left-append : (a t : Text) → trim_left (a ++ t) ≡ [] → trim_left a ≡ []
unfolding trim_left
trim_left-append [] t h = refl
trim_left-append (c ∷ a) t h = elim (Bool-cases (is_space c)) [
  | inl e ↦ rw e (trim_left-append a t (rw e at h))
  | inr e ↦ absurd (cc (rw e at h))
]

trim_left-last : (x : Text) (c : ℕ) → is_space c ≡ false → trim_left (x ++ (c ∷ [])) ≢ []
unfolding trim_left
trim_left-last [] c e h = cc (rw e at h)
trim_left-last (y ∷ x) c e h = elim (Bool-cases (is_space y)) [
  | inl k ↦ trim_left-last x c e (rw k at h)
  | inr k ↦ cc (rw k at h)
]

trim_left-head : (s : Text) (c : ℕ) (t : Text) → trim_left s ≡ c ∷ t → is_space c ≡ false
unfolding trim_left
trim_left-head [] c t h = absurd (cc)
trim_left-head (y ∷ s) c t h = elim (Bool-cases (is_space y)) [
  | inl k ↦ trim_left-head s c t (rw k at h)
  | inr k ↦ cc (k, rw k at h)
]

reverse-eq-nil : (x : Text) → reverse x ≡ [] → x ≡ []
reverse-eq-nil x h = sym (reverse-reverse x) ∙ ap reverse h

trim_space-eq-nil : (s : Text) → trim_space s ≡ [] → trim_left s ≡ []
unfolding trim_space
trim_space-eq-nil s h = go (trim_left s) refl
  where
    go : (t : Text) → trim_left s ≡ t → trim_left s ≡ []
    go [] e = e
    go (c ∷ t) e = absurd (
        trim_left-last (reverse t) c (trim_left-head s c t e) (
          ap trim_left (sym (reverse-cons c t))
          ∙ ap (λ (x : Text). trim_left (reverse x)) (sym e)
          ∙ reverse-eq-nil (trim_left (reverse (trim_left s))) h))

IsItem-append-ne : (a t : Text) → IsItem a → trim_space (a ++ t) ≢ []
unfolding trim_space trim_left
IsItem-append-ne a t item h = item.nonempty (
    sym item.trimmed
    ∙ ap (λ (x : Text). reverse (trim_left (reverse x)))
        (trim_left-append a t (trim_space-eq-nil (a ++ t) h)))

join-ne : (a : Text) (items : List Text) → IsItem a → trim_space (join (a ∷ items)) ≢ []
unfolding join
join-ne a [] item h = item.nonempty (sym item.trimmed ∙ h)
join-ne a (b ∷ items) item h = IsItem-append-ne a (b',' ∷ join (b ∷ items)) item h

-- Items that are not empty, hold no comma and have no space at their ends are read back from the
-- text that joins them by commas.
pub parse_list-join : (items : List Text) → All IsItem items → parse_list (join items) ≡ items
unfolding parse_list
parse_list-join [] h = unfold join trim_space trim_left same in refl
parse_list-join (a ∷ items) h = elim (Bool-cases (same (trim_space (join (a ∷ items))) [])) [
  | inl e ↦ absurd (join-ne a items h.0 ((same_iff (trim_space (join (a ∷ items))) []).0 e))
  | inr e ↦ rw e (rw (split-join a items h) (keep_parts-items (a ∷ items) h))
]
