-- ===== src/AtomicFile/Elsewhere.antt =====
-- `WriteAtomic` of internal/atomicfile/atomicfile.go, seen from another file.
use lbsync.Prelude.{ℕ, ◌≡◌, ◌∙◌, refl, Text, same, false, Bool-cases, inl, inr, Result, ok, err}
use lbsync.Prelude.Steps.{◌>>◌, bind_elim}
use lbsync.Disk.{Disk, Os, at, read_file}
use lbsync.Disk.Keeps.{read_file-Keeps}
use lbsync.AtomicFile.{backup_of, copy_file, replace_file, write_atomic}
use lbsync.AtomicFile.Frame.{replace_file-keeps}
use lbsync.AtomicFile.Write.{copy_file-Keeps}

module _ (os : Os) (path content : Text) (perm : ℕ) (q : Text) (other : same path q ≡ false)
    (not_backup : same (backup_of path) q ≡ false)
    (drawn : (n : ℕ) → same (os.temp n path) q ≡ false) where
  saved-keeps :
      (d : Disk)
      → at ((copy_file os path (backup_of path) perm >> replace_file os path content perm) d).1 q
        ≡ at d q
  saved-keeps d =
      let kept = (copy_file-Keeps os path perm q (backup_of path) not_backup).kept d in
      bind_elim (λ r. at r.1 q ≡ at d q) (copy_file os path (backup_of path) perm)
        (λ _. replace_file os path content perm) d
        (λ u h. replace_file-keeps os path content perm q other drawn _ ∙ kept) (λ e h. kept)

  -- A file that is not the one that is written, its backup or a temporary one stays as it is.
  pub write_atomic-keeps : (d : Disk) → at (write_atomic os path content perm d).1 q ≡ at d q
  unfolding write_atomic
  write_atomic-keeps d = by_cases (read_file os path d).0 refl
    where
      by_cases :
          (r : Result Text)
          → (read_file os path d).0 ≡ r
          → at (write_atomic os path content perm d).1 q ≡ at d q
      by_cases (err e) h =
          rw (h, write_atomic)
            (replace_file-keeps os path content perm q other drawn _
              ∙ (read_file-Keeps os q path).kept d)
      by_cases (ok old) h = elim (Bool-cases (same old content)) [
        | inl e ↦ rw (h, e, write_atomic) ((read_file-Keeps os q path).kept d)
        | inr e ↦ rw (h, e, write_atomic) (saved-keeps _ ∙ (read_file-Keeps os q path).kept d)
      ]
