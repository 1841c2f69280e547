-- ===== src/AtomicFile/Success.antt =====
-- `WriteAtomic` of internal/atomicfile/atomicfile.go where no call fails.
use lbsync.Prelude.{
  ℕ, ◌≡◌, ◌∙◌, refl, ap, Text, same, same_refl, Bool, Bool-cases, inl, inr, not, true, Option, none,
  some, Result, ok, text, ◌++◌,
}
use lbsync.Prelude.Dict.{lookup-insert}
use lbsync.Prelude.Steps.{or_wrap, bind_ok, or_wrap_ok}
use lbsync.Disk.{
  File, Disk, Os, at, read_file, write_file, create_temp, write, chmod, close, rename,
}
use lbsync.Disk.Keeps.{read_file-Keeps}
use lbsync.AtomicFile.Backup.{read_file_found}
use lbsync.AtomicFile.Created.{write_atomic-absent}
use lbsync.AtomicFile.{
  backup_of, copy_file, write_temp, set_bits, close_and_rename, then_remove, fill_and_rename,
  replace_file, write_atomic,
}

-- The same system, where no call fails.
abbrev pub faultless : Os → Os
faultless os = record os { fault = λ n. none }

-- The file is not there, or its content is another.
abbrev pub differs : Option File → Text → Bool
differs none content = true
differs (some f) content = not (same f.content content)

module _ (os : Os) (path content : Text) (perm : ℕ) where
  replace_file-succeeds : (d : Disk) → (replace_file (faultless os) path content perm d).0 ≡ ok true
  unfolding replace_file create_temp then_remove fill_and_rename write_temp write set_bits chmod
      close_and_rename close rename
  replace_file-succeeds d = rw (
    lookup-insert, same_refl, replace_file, then_remove, fill_and_rename, close_and_rename, rename,
  )

  backed_up-succeeds :
      (d : Disk) (old : File)
      → at d path ≡ some old
      → (copy_file (faultless os) path (backup_of path) perm d).0 ≡ ok tt
  unfolding copy_file write_file write
  backed_up-succeeds d old there =
      let reading = or_wrap (text "read " ++ path) (read_file (faultless os) path) in
      let saving = λ (c : Text).
        or_wrap (text "write " ++ backup_of path)
          (write_file (faultless os) (backup_of path) c perm) in
      ap (λ (r : Result (Unit {0}) × Disk). r.0)
        (bind_ok reading saving d old.content (
          or_wrap_ok (text "read " ++ path) (read_file (faultless os) path) d old.content
            (read_file_found (faultless os) path d old there refl)))
      ∙ or_wrap_ok (text "write " ++ backup_of path)
          (write_file (faultless os) (backup_of path) old.content perm) (reading d).1 tt refl

  found :
      (d : Disk) (f : File)
      → at d path ≡ some f
      → (write_atomic (faultless os) path content perm d).0 ≡ ok (not (same f.content content))
  unfolding write_atomic
  found d f h = elim (Bool-cases (same f.content content)) [
    | inl e ↦ rw (read_file_found (faultless os) path d f h refl, e, write_atomic)
    | inr e ↦
        let kept = (read_file-Keeps (faultless os) path path).kept d in
        rw (read_file_found (faultless os) path d f h refl, e, write_atomic)
          (ap (λ (r : Result Bool × Disk). r.0)
              (bind_ok (copy_file (faultless os) path (backup_of path) perm)
                (λ _. replace_file (faultless os) path content perm)
                (read_file (faultless os) path d).1 tt
                (backed_up-succeeds (read_file (faultless os) path d).1 f (kept ∙ h)))
            ∙ replace_file-succeeds _)
  ]

  -- If no call fails, WriteAtomic succeeds, and reports a change exactly if the file was not there or
  -- had another content.
  pub write_atomic-succeeds :
      (d : Disk)
      → (write_atomic (faultless os) path content perm d).0 ≡ ok (differs (at d path) content)
  write_atomic-succeeds d = by_cases (at d path) refl
    where
      by_cases :
          (o : Option File)
          → at d path ≡ o
          → (write_atomic (faultless os) path content perm d).0 ≡ ok (differs o content)
      by_cases none h =
          ap (λ (r : Result Bool × Disk). r.0)
            (write_atomic-absent (faultless os) path content perm d h)
          ∙ replace_file-succeeds _
      by_cases (some f) h = found d f h
