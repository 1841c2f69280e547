-- ===== src/Bundle/Parts.antt =====
-- The loop of `WriteAtomic` of internal/bundle/bundle.go over files that do not stand in each other's
-- way.
use lbsync.Prelude.{
  ℕ, ◌≡◌, ◌⊎◌, ◌∙◌, refl, inl, inr, Text, same, same_iff, Bool, Bool-cases, true, false, ◌||◌,
  Option, some, List, [], ◌∷◌, All, Result, ok, err, Error, err-ne-ok, ok-injective,
}
use lbsync.Prelude.Steps.{bind_elim}
use lbsync.Paths.{join}
use lbsync.Disk.{File, Disk, Os, at}
use lbsync.AtomicFile.{backup_of}
use lbsync.AtomicFile.Write.{Reports, write_atomic-Reports}
use lbsync.AtomicFile.Backup.{Holds}
use lbsync.AtomicFile.Elsewhere.{write_atomic-keeps}
use lbsync.Bundle.Files.{Part, write_part, write_parts}

abbrev pub file_of : Part → File
file_of part = record { content = part.data_; perm = part.perm }

-- The file is what it was, or the whole new one.
abbrev pub Whole : Part → Option File → Option File → Type 0
Whole part old after = (after ≡ old) ⊎ (after ≡ some (file_of part))

-- There was nothing to write, or the file has the new content.
abbrev pub Served : Part → Option File → Type 0
Served part after = (part.data_ ≡ []) ⊎ Holds after part.data_

-- A file of the bundle before and after a write of the bundle that reports `r`.
unfoldable pub PartEnds : Result Bool → Part → Option File → Option File → Type 0
PartEnds (ok true) part old after = Whole part old after × Served part after
PartEnds (ok false) part old after = (after ≡ old) × Served part after
PartEnds (err e) part old after = Whole part old after

abbrev pub path_of : Text → Part → Text
path_of dir part = join (dir ∷ part.name ∷ [])

-- Writing the file of `p` does not touch the file at `q`.
abbrev pub Apart : Os → Text → Text → Type 0
Apart os p q =
    (same p q ≡ false) × (same (backup_of p) q ≡ false) × ((n : ℕ) → same (os.temp n p) q ≡ false)

abbrev pub BothApart : Os → Text → Text → Type 0
BothApart os p q = Apart os p q × Apart os q p

-- No two files stand in each other's way, nor does a temporary one.
unfoldable pub AllApart : Os → Text → List Part → Type 0
AllApart os dir [] = Unit {0}
AllApart os dir (p ∷ ps) =
    ((n : ℕ) → same (os.temp n (path_of dir p)) (path_of dir p) ≡ false)
    × All (λ q. BothApart os (path_of dir p) (path_of dir q)) ps
    × AllApart os dir ps

pub All-map {ℓ κ λ'} :
    {A : Type ℓ} {P : A → Type κ} {Q : A → Type λ'} (xs : List A)
    → ((a : A) → P a → Q a)
    → All P xs
    → All Q xs
All-map [] f h = tt
All-map (x ∷ xs) f h = (f x h.0, All-map xs f h.1)

pub All-every {ℓ κ} : {A : Type ℓ} {P : A → Type κ} (xs : List A) → ((a : A) → P a) → All P xs
All-every [] f = tt
All-every (x ∷ xs) f = (f x, All-every xs f)

pub All-both {ℓ κ μ ν} :
    {A : Type ℓ} {P : A → Type κ} {Q : A → Type μ} {R : A → Type ν} (xs : List A)
    → ((a : A) → P a → Q a → R a)
    → All P xs
    → All Q xs
    → All R xs
All-both [] f h k = tt
All-both (x ∷ xs) f h k = (f x h.0 k.0, All-both xs f h.1 k.1)

module _ (os : Os) (dir : Text) where
  -- One file: what is reported of it.
  PartReports : Result Bool → Part → Option File → Option File → Type 0
  PartReports (ok true) p old after = after ≡ some (file_of p)
  PartReports (ok false) p old after = (after ≡ old) × Served p after
  PartReports (err e) p old after = after ≡ old

  PartReports-Reports :
      (p : Part) (r : Result Bool) (old after : Option File)
      → Reports r old (file_of p) after
      → PartReports r p old after
  unfolding PartReports
  PartReports-Reports p (ok true) old after h = h
  PartReports-Reports p (ok false) old after (kept, f, there, e) = (kept, inr (f, kept ∙ there, e))
  PartReports-Reports p (err e) old after h = h

  write_part-PartReports :
      (p : Part) (d : Disk)
      → ((n : ℕ) → same (os.temp n (path_of dir p)) (path_of dir p) ≡ false)
      → PartReports
          (write_part os dir p d).0
          p
          (at d (path_of dir p))
          (at (write_part os dir p d).1 (path_of dir p))
  unfolding write_part
  write_part-PartReports p d drawn = elim (Bool-cases (same p.data_ [])) [
    | inl e ↦ rw (e, write_part) (unfold PartReports in (refl, inl ((same_iff p.data_ []).0 e)))
    | inr e ↦
        rw (e, write_part)
          (PartReports-Reports p _ _ _
            (write_atomic-Reports os (path_of dir p) p.data_ p.perm drawn d))
  ]

  write_part-keeps :
      (p : Part) (q : Text) (d : Disk)
      → Apart os (path_of dir p) q
      → at (write_part os dir p d).1 q ≡ at d q
  unfolding write_part
  write_part-keeps p q d (other, not_backup, drawn) = elim (Bool-cases (same p.data_ [])) [
    | inl e ↦ rw (e, write_part)
    | inr e ↦
        rw (e, write_part)
          (write_atomic-keeps os (path_of dir p) p.data_ p.perm q other not_backup drawn d)
  ]

  write_parts-keeps :
      (ps : List Part) (changed : Bool) (q : Text) (d : Disk)
      → All (λ p. Apart os (path_of dir p) q) ps
      → at (write_parts os dir ps changed d).1 q ≡ at d q
  unfolding write_parts
  write_parts-keeps [] changed q d h = refl
  write_parts-keeps (p ∷ ps) changed q d h =
      let kept = write_part-keeps p q d h.0 in
      bind_elim (λ r. at r.1 q ≡ at d q) (write_part os dir p)
        (λ c. write_parts os dir ps (changed || c)) d
        (λ c _. write_parts-keeps ps (changed || c) q _ h.1 ∙ kept) (λ e _. kept)

  or-false : (a b : Bool) → (a || b) ≡ false → (a ≡ false) × (b ≡ false)
  or-false false b h = (refl, h)
  or-false true b h = cc

  -- `false` is reported only if nothing was changed before.
  unchanged_before :
      (ps : List Part) (changed : Bool) (d : Disk)
      → (write_parts os dir ps changed d).0 ≡ ok false
      → changed ≡ false
  unfolding write_parts
  unchanged_before [] changed d = λ h. ok-injective h
  unchanged_before (p ∷ ps) changed d =
      bind_elim (λ r. r.0 ≡ ok false → changed ≡ false) (write_part os dir p)
        (λ c. write_parts os dir ps (changed || c)) d
        (λ c _ h. (or-false changed c (unchanged_before ps (changed || c) _ h)).0)
        (λ e _ h. absurd (err-ne-ok h))

  -- A file that was written first, when the others have been written.
  first_ends :
      (p : Part) (c : Bool) (r : Result Bool) (old mid after : Option File)
      → PartReports (ok c) p old mid
      → after ≡ mid
      → (r ≡ ok false → c ≡ false)
      → PartEnds r p old after
  unfolding PartReports PartEnds
  first_ends p true (ok true) old mid after h k no_ = (inr (k ∙ h), inr (file_of p, k ∙ h, refl))
  first_ends p true (ok false) old mid after h k no_ = cc (no_ refl)
  first_ends p true (err e) old mid after h k no_ = inr (k ∙ h)
  first_ends p false (ok true) old mid after (h, s) k no_ = rw k (inl h, s)
  first_ends p false (ok false) old mid after (h, s) k no_ = rw k (h, s)
  first_ends p false (err e) old mid after (h, s) k no_ = inl (k ∙ h)

  -- What the state `r` makes of the files.
  abbrev pub Ends : Disk → List Part → Result Bool × Disk → Type 0
  Ends d ps r = All (λ q. PartEnds r.0 q (at d (path_of dir q)) (at r.1 (path_of dir q))) ps

  -- None of the others was written when the first failed.
  none_written :
      (p : Part) (ps : List Part) (e : Error) (d : Disk)
      → (write_part os dir p d).0 ≡ err e
      → AllApart os dir (p ∷ ps)
      → Ends d (p ∷ ps) (err e, (write_part os dir p d).1)
  unfolding AllApart PartReports PartEnds
  none_written p ps e d h (own, apart, rest) = (
    inl (rw h at (write_part-PartReports p d own)),
    All-map ps (λ q a. inl (write_part-keeps p (path_of dir q) d a.0)) apart,
  )

  pub write_parts-Ends :
      (ps : List Part) (changed : Bool) (d : Disk)
      → AllApart os dir ps
      → Ends d ps (write_parts os dir ps changed d)
  unfolding write_parts AllApart
  write_parts-Ends [] changed d apart = tt
  write_parts-Ends (p ∷ ps) changed d apart =
      bind_elim (Ends d (p ∷ ps)) (write_part os dir p) (λ c. write_parts os dir ps (changed || c))
        d
        (λ c h.
          let d' = (write_part os dir p d).1 in
          let back = All-map ps (λ q a. a.1) apart.1 in
          (
            first_ends p c _ _ _ _ (rw h at (write_part-PartReports p d apart.0))
                (write_parts-keeps ps (changed || c) (path_of dir p) d' back)
                (λ k. (or-false changed c (unchanged_before ps (changed || c) d' k)).1),
            All-both ps (λ q a ends. rw (write_part-keeps p (path_of dir q) d a.0) at ends) apart.1
                (write_parts-Ends ps (changed || c) d' apart.2),
          ))
        (λ e h. none_written p ps e d h apart)
