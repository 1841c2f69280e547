-- ===== src/AtomicFile/Restore.antt =====
-- `Restore` of internal/atomicfile/atomicfile.go.
use mathlib.Core.Option.{or_else}
use lbsync.Prelude.{
  ℕ, ◌≡◌, ◌∙◌, refl, Text, text, same, same_refl, true, false, Option, none, some, Result, ok,
  err-ne-ok, ok-injective, ◌++◌,
}
use lbsync.Prelude.Dict.{lookup-insert, lookup-erase}
use lbsync.Prelude.Steps.{bind_elim, or_wrap-eq-ok, or_wrap-state}
use lbsync.Disk.{File, Disk, Os, at, stat, rename}
use lbsync.Disk.Keeps.{attempt_elim, stat-Keeps}
use lbsync.AtomicFile.{backup_of, write_atomic, restore, bring_back}
use lbsync.AtomicFile.Backup.{Holds, same-path-backup, write_atomic-backup}

module _ (os : Os) where
  pub rename-moves :
      (from to : Text) (d : Disk) (f : File)
      → same to from ≡ false
      → at d from ≡ some f
      → (rename os from to d).0 ≡ ok tt
      → (at (rename os from to d).1 to ≡ some f) × (at (rename os from to d).1 from ≡ none)
  unfolding rename
  rename-moves from to d f ne there =
      attempt_elim os (λ r. r.0 ≡ ok tt → (at r.1 to ≡ some f) × (at r.1 from ≡ none)) d _ _
        (λ e h. absurd (err-ne-ok h))
        (rw there (λ h.
          (rw (lookup-insert, same_refl to), rw (lookup-insert, ne, lookup-erase, same_refl from))))

  stat-found : (p : Text) (d : Disk) (o : Option File) → (stat os p d).0 ≡ ok o → at d p ≡ o
  unfolding stat
  stat-found p d o =
      attempt_elim os (λ r. r.0 ≡ ok o → at d p ≡ o) d _ _ (λ e h. absurd (err-ne-ok h))
        (λ h. ok-injective h)

module _ (os : Os) (path : Text) where
  -- The file at `path` and its backup, after a restoration that found `o`.
  abbrev Restored : Option File → Disk → Result (Unit {0}) × Disk → Type 0
  Restored o d r =
      r.0 ≡ ok tt → (at r.1 path ≡ or_else o (at d path)) × (at r.1 (backup_of path) ≡ none)

  bring_back-Restored :
      (o : Option File) (d : Disk)
      → at d (backup_of path) ≡ o
      → Restored o d (bring_back os path o d)
  unfolding bring_back or_else
  bring_back-Restored none d there h = (refl, there)
  bring_back-Restored (some f) d there h =
      rw (or_wrap-state (text "restore " ++ path) (rename os (backup_of path) path) d) (
        rename-moves os (backup_of path) path d f (same-path-backup path) there
          (or_wrap-eq-ok (text "restore " ++ path) (rename os (backup_of path) path) d tt h))

  restore-Restored : (d : Disk) → Restored (at d (backup_of path)) d (restore os path d)
  unfolding restore
  restore-Restored d =
      bind_elim (Restored (at d (backup_of path)) d) (stat os (backup_of path))
        (λ o. bring_back os path o) d
        (λ o h.
          let e = stat-found os (backup_of path) d o h in
          let kept = λ (q : Text). (stat-Keeps os q (backup_of path)).kept d in
          rw e (
            rw (kept path) at
              (bring_back-Restored o (stat os (backup_of path) d).1 (kept (backup_of path) ∙ e))))
        (λ e h k. absurd (err-ne-ok k))

  -- A restoration that succeeds puts the backup, if there is one, in the place of the file, and
  -- leaves no backup; without a backup the file stays what it is.
  pub restore-backup :
      (d : Disk)
      → (restore os path d).0 ≡ ok tt
      → (at (restore os path d).1 path ≡ or_else (at d (backup_of path)) (at d path))
        × (at (restore os path d).1 (backup_of path) ≡ none)
  restore-backup d h = restore-Restored d h

-- A replacement and a restoration that both succeed leave the content that was there before, if the
-- old file can be read. The temporary name is not that of the backup.
pub restore-write_atomic :
    (os : Os) (path content : Text) (perm : ℕ) (d : Disk) (old : File)
    → ((n : ℕ) → same (os.temp n path) (backup_of path) ≡ false)
    → at d path ≡ some old
    → os.fault d.calls ≡ none
    → (write_atomic os path content perm d).0 ≡ ok true
    → (restore os path (write_atomic os path content perm d).1).0 ≡ ok tt
    → Holds (at (restore os path (write_atomic os path content perm d).1).1 path) old.content
restore-write_atomic os path content perm d old drawn there readable replaced h =
    let d' = (write_atomic os path content perm d).1 in
    let (f, saved, e) =
      write_atomic-backup os path content perm drawn d old there readable replaced in
    (f, (restore-backup os path d' h).0 ∙ unfold or_else in rw saved, e)
