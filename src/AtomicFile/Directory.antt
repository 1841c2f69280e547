-- ===== src/AtomicFile/Directory.antt =====
-- `RestoreDir` of internal/atomicfile/atomicfile.go.
pub mod Suffix
pub mod Entries
pub mod Restored
use lbsync.Prelude.{
  Text, text, same, Option, none, some, List, [], ◌∷◌, ◌++◌, ok, err, wrapped, if◌then◌else◌,
}
use lbsync.Prelude.Steps.{◌>>◌, pure, or_wrap}
use lbsync.Paths.{join}
use lbsync.Disk.{Os, rename, read_dir, is_not_exist}
use lbsync.AtomicFile.{Io, backup_suffix}

abbrev pub longer : {A : Type 0} → A → Option (List A) → Option (List A)
longer x none = none
longer x (some t) = some (x ∷ t)

-- strings.HasSuffix and strings.TrimSuffix
unfoldable pub cut_suffix : Text → Text → Option Text
cut_suffix suffix [] = if same [] suffix then some [] else none
cut_suffix suffix (x ∷ t) =
    let rest = cut_suffix suffix t in if same (x ∷ t) suffix then some [] else longer x rest

module _ (os : Os) (dir : Text) where
  -- A name that is not that of a backup is skipped.
  unfoldable pub restore_entry : Text → Option Text → Io (Unit {0})
  restore_entry name none = pure tt
  restore_entry name (some orig) =
      let path = join (dir ∷ orig ∷ []) in
      or_wrap (text "restore " ++ path) (rename os (join (dir ∷ name ∷ [])) path)

  -- The loop: the first error ends it.
  unfoldable pub restore_entries : List Text → Io (Unit {0})
  restore_entries [] = pure tt
  restore_entries (name ∷ names) =
      restore_entry name (cut_suffix backup_suffix name) >> restore_entries names

  -- RestoreDir
  unfoldable pub restore_dir : Io (Unit {0})
  restore_dir d =
      let (names, d') = read_dir os dir d in
      elim names [
        | err e ↦ (if is_not_exist e then ok tt else err (wrapped (text "read " ++ dir) e), d')
        | ok found ↦ restore_entries found d'
      ]
