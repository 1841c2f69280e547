-- ===== src/AtomicFile/Directory/Restored.antt =====
-- What `RestoreDir` of internal/atomicfile/atomicfile.go restores.
use lbsync.Prelude.{
  ◌≡◌, ◌∙◌, ap, Text, less, contains, Option, none, some, is_some, List, [], ◌∷◌, ◌++◌, All, Result,
  ok, err, Error,
}
use lbsync.Prelude.Dict.{keys, contains-keys}
use lbsync.Prelude.Sorting.{sort_by, sort_by-All}
use lbsync.Paths.{join, within}
use lbsync.Paths.Plain.{IsPlain, join-plain}
use lbsync.Disk.{File, Disk, Os, at, called, read_dir, names_in}
use lbsync.AtomicFile.{backup_suffix, backup_of}
use lbsync.AtomicFile.Directory.{cut_suffix, restore_entries, restore_dir}
use lbsync.AtomicFile.Directory.Suffix.{IsPlain-backup_of, contains-sort_texts, contains-names_in}
use lbsync.AtomicFile.Directory.Entries.{IsTidy, loop_there}

module _ (os : Os) (dir name : Text) (plain : IsPlain name)
    (no_backup : cut_suffix backup_suffix name ≡ none) where
  listed_there :
      (d : Disk) (p : Text)
      → IsPlain p
      → contains (sort_by less (names_in dir (keys d.files))) p ≡ is_some (at d (within dir ++ p))
  listed_there d p h =
      contains-sort_texts (names_in dir (keys d.files)) p
      ∙ contains-names_in dir p (keys d.files) h
      ∙ contains-keys d.files (within dir ++ p)

  read_dir_readable :
      (d : Disk)
      → os.fault d.calls ≡ none
      → read_dir os dir d ≡ (ok (sort_by less (names_in dir (keys d.files))), called d)
  unfolding read_dir
  read_dir_readable d readable =
      ap
        (λ (x : Option Error). elim x as (λ _. Result (List Text) × Disk) [
          | none ↦ (ok (sort_by less (names_in dir (keys d.files))), called d)
          | some e ↦ (err e, called d)
        ])
        readable

  restore_dir_readable :
      (d : Disk)
      → os.fault d.calls ≡ none
      → restore_dir os dir d
        ≡ restore_entries os dir (sort_by less (names_in dir (keys d.files))) (called d)
  unfolding restore_dir
  restore_dir_readable d readable =
      rw (read_dir_readable d readable, restore_dir)
        (ap
          (λ (r : Result (List Text) × Disk).
            restore_entries os dir (sort_by less (names_in dir (keys d.files))) r.1)
          (read_dir_readable d readable))

  -- RestoreDir, if the directory can be read and it succeeds: a file whose backup is there is what the
  -- backup was, whichever write left it, and the backup is gone. The backups are those of plain names,
  -- the file is not itself a backup, and its backup has none.
  pub restore_dir-restores :
      (d : Disk) (f : File)
      → os.fault d.calls ≡ none
      → All IsTidy (names_in dir (keys d.files))
      → at d (join (dir ∷ backup_of name ∷ [])) ≡ some f
      → at d (join (dir ∷ backup_of (backup_of name) ∷ [])) ≡ none
      → (restore_dir os dir d).0 ≡ ok tt
      → (at (restore_dir os dir d).1 (join (dir ∷ name ∷ [])) ≡ some f)
        × (at (restore_dir os dir d).1 (join (dir ∷ backup_of name ∷ [])) ≡ none)
  restore_dir-restores d f readable tidy there none_of_backup =
      let p = IsPlain-backup_of name plain in
      let p' = IsPlain-backup_of (backup_of name) p in
      rw
        (
          restore_dir_readable d readable,
          join-plain dir name plain,
          join-plain dir (backup_of name) p,
        )
        (loop_there os dir name plain no_backup (sort_by less (names_in dir (keys d.files)))
          (called d) f (sort_by-All less IsTidy (names_in dir (keys d.files)) tidy)
          (listed_there d (backup_of (backup_of name)) p'
            ∙ ap is_some (rw (join-plain dir (backup_of (backup_of name)) p') at none_of_backup))
          (listed_there d (backup_of name) p
            ∙ ap is_some (rw (join-plain dir (backup_of name) p) at there))
          (rw (join-plain dir (backup_of name) p) at there))
