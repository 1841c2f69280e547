-- ===== src/AtomicFile/Created.antt =====
-- A file that `WriteAtomic` of internal/atomicfile/atomicfile.go created, and not replaced.
use mathlib.Core.Option.{or_else}
use lbsync.Prelude.{
  ℕ, ◌≡◌, ◌∙◌, refl, ap, Text, same, same_refl, Bool, true, false, Option, none, some, Result, ok,
  err,
}
use lbsync.Disk.{File, Disk, Os, at, read_file}
use lbsync.Disk.Keeps.{read_file-Keeps}
use lbsync.AtomicFile.{backup_of, replace_file, write_atomic, restore}
use lbsync.AtomicFile.Frame.{replace_file-keeps}
use lbsync.AtomicFile.Write.{read_file-content, write_atomic-Reports}
use lbsync.AtomicFile.Backup.{same-path-backup, read_file_found}
use lbsync.AtomicFile.Restore.{restore-backup}

module _ (os : Os) (path content : Text) (perm : ℕ) where
  pub write_atomic-absent :
      (d : Disk)
      → at d path ≡ none
      → write_atomic os path content perm d
        ≡ replace_file os path content perm (read_file os path d).1
  write_atomic-absent d absent = by_cases (read_file os path d).0 refl
    where
      by_cases :
          (r : Result Text)
          → (read_file os path d).0 ≡ r
          → write_atomic os path content perm d
            ≡ replace_file os path content perm (read_file os path d).1
      by_cases (err e) h = unfold write_atomic in rw (h, write_atomic)
      by_cases (ok c) h =
          let (f, there, e) = read_file-content os path d c h in absurd (cc (absent, there))

  -- A file that already has the content is not written again, if it can be read.
  write_atomic-idle :
      (d : Disk) (f : File)
      → at d path ≡ some f
      → f.content ≡ content
      → os.fault d.calls ≡ none
      → (write_atomic os path content perm d).0 ≡ ok false
  unfolding write_atomic
  write_atomic-idle d f there e calm =
      rw (read_file_found os path d f there calm ∙ ap ok e, same_refl content, write_atomic)

-- A file that was created is not undone: if neither the file nor a backup was there before and the
-- new file was written, a restoration that succeeds leaves the new file, and the next attempt to write
-- the same content reports no change, if the file can then be read. The temporary name is neither the
-- path nor its backup.
pub write_atomic-created :
    (os : Os) (path content : Text) (perm : ℕ) (d : Disk)
    → ((n : ℕ) → same (os.temp n path) path ≡ false)
    → ((n : ℕ) → same (os.temp n path) (backup_of path) ≡ false)
    → at d path ≡ none
    → at d (backup_of path) ≡ none
    → (write_atomic os path content perm d).0 ≡ ok true
    → (restore os path (write_atomic os path content perm d).1).0 ≡ ok tt
    → os.fault (restore os path (write_atomic os path content perm d).1).1.calls ≡ none
    → (at (restore os path (write_atomic os path content perm d).1).1 path
        ≡ some (record { content = content; perm = perm }))
      × ((write_atomic os path content perm
            (restore os path (write_atomic os path content perm d).1).1).0
          ≡ ok false)
write_atomic-created os path content perm d drawn drawn_backup absent none_saved written restored
      calm =
    (
      here,
      write_atomic-idle os path content perm (restore os path d').1
          (record { content = content; perm = perm }) here refl calm,
    )
  where
    d' : Disk
    d' = (write_atomic os path content perm d).1

    no_backup : at d' (backup_of path) ≡ none
    no_backup =
        ap (λ (r : Result Bool × Disk). at r.1 (backup_of path))
          (write_atomic-absent os path content perm d absent)
        ∙ replace_file-keeps os path content perm (backup_of path) (same-path-backup path)
            drawn_backup _
        ∙ (read_file-Keeps os (backup_of path) path).kept d
        ∙ none_saved

    there : at d' path ≡ some (record { content = content; perm = perm })
    there = rw written at (write_atomic-Reports os path content perm drawn d)

    here : at (restore os path d').1 path ≡ some (record { content = content; perm = perm })
    here =
        (restore-backup os path d' restored).0
        ∙ ap (λ (o : Option File). or_else o (at d' path)) no_backup
        ∙ unfold or_else in there
