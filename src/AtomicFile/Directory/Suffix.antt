-- ===== src/AtomicFile/Directory/Suffix.antt =====
-- Names of backups, and which files of a directory os.ReadDir lists.
use lbsync.Prelude.{
  ℕ, ◌≡◌, ◌∙◌, refl, ap, inl, inr, arith, Text, text, length, ◌≤◌, same_refl, same_ne,
  same-append_left, same, same_iff, same-append_left, less, contains, Bool, Bool-cases, true, false,
  ◌||◌, Option, none, some, List, [], ◌∷◌, ◌++◌,
}
use lbsync.Prelude.Sorting.{insert_by, sort_by}
use lbsync.Paths.{has, strip_prefix, within}
use lbsync.Paths.Plain.{IsPlain}
use lbsync.Disk.{onto_names, names_in}
use lbsync.AtomicFile.{backup_of}
use lbsync.AtomicFile.Directory.{cut_suffix, longer}

longer-eq :
    (x : ℕ) (o : Option Text) (p : Text)
    → longer x o ≡ some p
    → (q : Text) × (o ≡ some q) × (p ≡ x ∷ q)
longer-eq x none p h = cc
longer-eq x (some q) p h = (q, refl, cc)

cut_whole : (suffix t p : Text) → same t suffix ≡ true → some [] ≡ some p → t ≡ p ++ suffix
cut_whole suffix t [] e h = (same_iff t suffix).0 e
cut_whole suffix t (x ∷ p) e h = cc

-- What is cut off stood at the end.
pub cut_suffix-eq : (suffix t p : Text) → cut_suffix suffix t ≡ some p → t ≡ p ++ suffix
unfolding cut_suffix
cut_suffix-eq suffix [] p h = elim (Bool-cases (same [] suffix)) [
  | inl e ↦ cut_whole suffix [] p e (rw e at h)
  | inr e ↦ cc (rw e at h)
]
cut_suffix-eq suffix (x ∷ t) p h = elim (Bool-cases (same (x ∷ t) suffix)) [
  | inl e ↦ cut_whole suffix (x ∷ t) p e (rw e at h)
  | inr e ↦
      let (q, k, l) = longer-eq x (cut_suffix suffix t) p (rw e at h) in
      rw l (ap (λ (s : Text). x ∷ s) (cut_suffix-eq suffix t q k))
]

same-bak_empty : (t : Text) → same (t ++ text ".bak") [] ≡ false
unfolding same
same-bak_empty [] = refl
same-bak_empty (c ∷ t) = refl

same-bak_dot : (t : Text) → same (t ++ text ".bak") (text ".") ≡ false
unfolding same
same-bak_dot [] = refl
same-bak_dot (c ∷ t) = ground (arith, same-bak_empty t)

has-bak : (t : Text) → has b'/' (t ++ text ".bak") ≡ has b'/' t
unfolding has
has-bak [] = refl
has-bak (c ∷ t) = ground (arith, has-bak t)

pub IsPlain-backup_of : (name : Text) → IsPlain name → IsPlain (backup_of name)
unfolding same has
IsPlain-backup_of [] p = absurd (cc (p.nonempty))
IsPlain-backup_of (c ∷ name) p = record {
  nonempty = refl;
  not_dot = ground (arith, same-bak_empty name);
  not_up = ground (arith, same-bak_dot name);
  no_slash = has-bak (c ∷ name) ∙ p.no_slash;
}

strip_prefix-append : (p t : Text) → strip_prefix p (p ++ t) ≡ some t
unfolding strip_prefix
strip_prefix-append [] t = refl
strip_prefix-append (x ∷ p) t = ground (arith, strip_prefix-append p t)

strip_prefix-eq : (p t s : Text) → strip_prefix p t ≡ some s → t ≡ p ++ s
unfolding strip_prefix
strip_prefix-eq [] t s h = cc
strip_prefix-eq (x ∷ p) [] s h = cc
strip_prefix-eq (x ∷ p) (y ∷ t) s h = ground (arith, strip_prefix-eq p t s)

contains-insert_text :
    (t : Text) (ts : List Text) (k : Text)
    → contains (insert_by less t ts) k ≡ (same t k || contains ts k)
unfolding insert_by contains
contains-insert_text t [] k = refl
contains-insert_text t (x ∷ ts) k = ground (arith, contains-insert_text t ts k)

pub contains-sort_texts : (ts : List Text) (k : Text) → contains (sort_by less ts) k ≡ contains ts k
unfolding sort_by contains
contains-sort_texts [] k = refl
contains-sort_texts (t ∷ ts) k =
    contains-insert_text t (sort_by less ts) k ∙ ground (arith, contains-sort_texts ts k)

strip_prefix-other : (p t k : Text) → strip_prefix p t ≡ none → same t (p ++ k) ≡ false
strip_prefix-other p t k h = elim (Bool-cases (same t (p ++ k))) [
  | inl e ↦ cc (rw ((same_iff t (p ++ k)).0 e, strip_prefix-append) at h)
  | inr e ↦ e
]

not_listed : (s name : Text) → IsPlain name → (same s [] || has b'/' s) ≡ true → same s name ≡ false
not_listed s name p h = elim (Bool-cases (same s name)) [
  | inl e ↦ ground (
    arith,
    rw (← (same_iff s name).0 e) at p.nonempty,
    rw (← (same_iff s name).0 e) at p.no_slash,
  )
  | inr e ↦ e
]

contains-onto_names :
    (dir name t : Text) (names : List Text) (o : Option Text)
    → IsPlain name
    → strip_prefix (within dir) t ≡ o
    → contains (onto_names o names) name ≡ (same t (within dir ++ name) || contains names name)
unfolding contains
contains-onto_names dir name t names none p h = rw (strip_prefix-other (within dir) t name h)
contains-onto_names dir name t names (some s) p h = elim (Bool-cases (same s [] || has b'/' s)) [
  | inl e ↦ rw (e, strip_prefix-eq (within dir) t s h, same-append_left, not_listed s name p e)
  | inr e ↦ rw (e, strip_prefix-eq (within dir) t s h, same-append_left)
]

-- A plain name is listed if a file with its path is there.
pub contains-names_in :
    (dir name : Text) (ts : List Text)
    → IsPlain name
    → contains (names_in dir ts) name ≡ contains ts (within dir ++ name)
unfolding names_in contains
contains-names_in dir name [] p = refl
contains-names_in dir name (t ∷ ts) p =
    contains-onto_names dir name t (names_in dir ts) (strip_prefix (within dir) t) p refl
    ∙ ap (λ (b : Bool). same t (within dir ++ name) || b) (contains-names_in dir name ts p)

length-append_le : (p s : Text) → length s ≤ length (p ++ s)
length-append_le [] s = omega arith
length-append_le (x ∷ p) s = let rest = length-append_le p s in omega arith

-- What was put at the end is cut off again.
pub cut_suffix-append : (suffix p : Text) → cut_suffix suffix (p ++ suffix) ≡ some p
unfolding cut_suffix
cut_suffix-append [] [] = unfold same in refl
cut_suffix-append (c ∷ suffix) [] = rw (same_refl (c ∷ suffix))
cut_suffix-append suffix (x ∷ p) = rw (
  same_ne (x ∷ (p ++ suffix)) suffix
      (λ e. let le = length-append_le p suffix in let eq = ap length e in omega arith),
  cut_suffix-append suffix p,
)
