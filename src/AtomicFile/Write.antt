-- ===== src/AtomicFile/Write.antt =====
-- `WriteAtomic` of internal/atomicfile/atomicfile.go: what it leaves at its path, in the backup and
-- at every other path, whichever of its calls fail.
use lbsync.Prelude.{
  ℕ, ◌≡◌, ◌≢◌, ◌∙◌, refl, Text, text, same, same_iff, same-append_longer, Bool, Bool-cases, true,
  false, Option, none, some, inl, inr, Result, ok, err, err-ne-ok, ok-injective, ◌++◌,
}
use lbsync.Prelude.Steps.{◌>>◌, or_wrap, bind_elim}
use lbsync.Disk.{File, Disk, Os, at, content_of, read_file, write_file, create_temp}
use lbsync.Disk.Keeps.{Keeps, attempt_elim, read_file-Keeps, write_file-Keeps}
use lbsync.AtomicFile.{
  Io, backup_of, then_remove, fill_and_rename, replace_file, copy_file, write_atomic,
}
use lbsync.AtomicFile.Rules.{Keeps-bind, Keeps-or_wrap}
use lbsync.AtomicFile.Replace.{Ends, replace_file-Atomic}

-- What `WriteAtomic` reports, with the file before and after: `true` if it was replaced, `false` if
-- it had the content already, an error if it is as before.
abbrev pub Reports : Result Bool → Option File → File → Option File → Type 0
Reports (ok true) old new after = after ≡ some new
Reports (ok false) old new after =
    (after ≡ old) × (f : File) × (old ≡ some f) × (f.content ≡ new.content)
Reports (err _) old new after = after ≡ old

pub same-backup_of : (path : Text) → same (backup_of path) path ≡ false
same-backup_of path = same-append_longer path (text "bak") b'.'

then_remove-ne-false :
    (os : Os) (tmp : Text) (m : Io (Unit {0})) (d : Disk) → (then_remove os tmp m d).0 ≢ ok false
unfolding then_remove
then_remove-ne-false os tmp m d = go (m d).0
  where
    go :
        (r : Result (Unit {0}))
        → ◌≢◌ {A = Result Bool} (elim r [ ok _ ↦ ok true | err e ↦ err e ]) (ok false)
    go (ok a) h = cc
    go (err e) h = absurd (err-ne-ok h)

replace_file-ne-false :
    (os : Os) (path content : Text) (perm : ℕ) (d : Disk)
    → (replace_file os path content perm d).0 ≢ ok false
unfolding replace_file
replace_file-ne-false os path content perm d =
    bind_elim (λ r. r.0 ≢ ok false)
      (or_wrap (text "create temp for " ++ path) (create_temp os path))
      (λ tmp. then_remove os tmp (fill_and_rename os tmp path content perm)) d
      (λ tmp h. then_remove-ne-false os tmp (fill_and_rename os tmp path content perm) _)
      (λ e h k. absurd (err-ne-ok k))

pub read_file-content :
    (os : Os) (path : Text) (d : Disk) (c : Text)
    → (read_file os path d).0 ≡ ok c
    → (f : File) × (at d path ≡ some f) × (f.content ≡ c)
unfolding read_file
read_file-content os path d c =
    attempt_elim os (λ r. r.0 ≡ ok c → (f : File) × (at d path ≡ some f) × (f.content ≡ c)) d _ _
      (λ e h. absurd (err-ne-ok h)) (go (at d path) refl)
  where
    go :
        (o : Option File)
        → at d path ≡ o
        → content_of o ≡ ok c
        → (f : File) × (at d path ≡ some f) × (f.content ≡ c)
    go none e h = absurd (err-ne-ok h)
    go (some f) e h = (f, e, ok-injective h)

pub copy_file-Keeps :
    (os : Os) (path : Text) (perm : ℕ) (q dst : Text)
    → same dst q ≡ false
    → Keeps q (copy_file os path dst perm)
unfolding copy_file
copy_file-Keeps os path perm q dst ne =
    Keeps-bind (or_wrap (text "read " ++ path) (read_file os path))
      (λ c. or_wrap (text "write " ++ dst) (write_file os dst c perm))
      (Keeps-or_wrap _ _ (read_file-Keeps os q path))
      (λ c. Keeps-or_wrap _ _ (write_file-Keeps os q dst c perm ne))

module _ (os : Os) (path content : Text) (perm : ℕ)
    (drawn : (n : ℕ) → same (os.temp n path) path ≡ false) where
  abbrev new : File
  new = record { content = content; perm = perm }

  replaced-Reports :
      (old : Option File) (r : Result Bool) (after : Option File)
      → r ≢ ok false
      → Ends r old new after
      → Reports r old new after
  replaced-Reports old (ok true) after ne h = h
  replaced-Reports old (ok false) after ne h = absurd (ne refl)
  replaced-Reports old (err e) after ne h = h

  replace_file-Reports :
      (d : Disk)
      → Reports
          (replace_file os path content perm d).0
          (at d path)
          new
          (at (replace_file os path content perm d).1 path)
  replace_file-Reports d =
      replaced-Reports (at d path) _ _ (replace_file-ne-false os path content perm d)
        (replace_file-Atomic os path content perm drawn d)

  backed_up-Reports :
      (d : Disk)
      → let r = (copy_file os path (backup_of path) perm >> replace_file os path content perm) d in
        Reports r.0 (at d path) new (at r.1 path)
  backed_up-Reports d =
      let kept =
        (copy_file-Keeps os path perm path (backup_of path) (same-backup_of path)).kept d in
      bind_elim (λ r. Reports r.0 (at d path) new (at r.1 path))
        (copy_file os path (backup_of path) perm) (λ _. replace_file os path content perm) d
        (λ a h. rw kept at (replace_file-Reports (copy_file os path (backup_of path) perm d).1))
        (λ e h. kept)

  write_atomic_found :
      (d : Disk) (found : Result Text)
      → (read_file os path d).0 ≡ found
      → Reports
          (write_atomic os path content perm d).0
          (at d path)
          new
          (at (write_atomic os path content perm d).1 path)
  unfolding write_atomic
  write_atomic_found d (err e) h =
      rw (h, write_atomic)
        (rw ((read_file-Keeps os path path).kept d) at
          (replace_file-Reports (read_file os path d).1))
  write_atomic_found d (ok old) h = elim (Bool-cases (same old content)) [
    | inl eq ↦
        let (f, there, e) = read_file-content os path d old h in
        rw (h, eq, write_atomic)
          ((read_file-Keeps os path path).kept d, f, there, e ∙ (same_iff old content).0 eq)
    | inr ne ↦
        rw (h, ne, write_atomic)
          (rw ((read_file-Keeps os path path).kept d) at
            (backed_up-Reports (read_file os path d).1))
  ]

  -- Whichever calls fail, the file at the path is afterwards the whole new file, with its bits, if
  -- `true` is reported; it is untouched, and has the content already, if `false` is; and it is
  -- untouched if an error is. The temporary name is not the path itself.
  pub write_atomic-Reports :
      (d : Disk)
      → Reports
          (write_atomic os path content perm d).0
          (at d path)
          new
          (at (write_atomic os path content perm d).1 path)
  write_atomic-Reports d = write_atomic_found d (read_file os path d).0 refl
