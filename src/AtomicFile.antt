-- ===== src/AtomicFile.antt =====
-- internal/atomicfile/atomicfile.go: files are replaced by a temporary file and a rename, and the
-- replaced content is kept in one backup. The calls of package os are those of `Disk`.
pub mod Rules
pub mod Replace
pub mod Write
pub mod Frame
pub mod Backup
pub mod Restore
pub mod Created
pub mod Success
pub mod Elsewhere
pub mod Directory
use lbsync.Prelude.{
  ℕ, Text, text, same, Bool, true, false, Option, none, some, ◌++◌, ok, err, if◌then◌else◌,
}
use lbsync.Prelude.Steps.{Steps, ◌>>=◌, ◌>>◌, pure, or_wrap}
use lbsync.Disk.{
  File, Disk, Os, read_file, write_file, create_temp, write, chmod, close, rename, remove, stat,
}

-- BackupSuffix
abbrev pub backup_suffix : Text
backup_suffix = text ".bak"

abbrev pub backup_of : Text → Text
backup_of path = path ++ backup_suffix

-- Calls that work on the files and may fail.
abbrev pub Io : Type 0 → Type 0
Io = Steps Disk

module _ (os : Os) where
  -- A failure closes the temporary file, with no look at the result.
  abbrev pub or_close : {A : Type 0} → Io A → Io A
  or_close m d =
      let (res, d') = m d in elim res [ ok a ↦ (ok a, d') | err e ↦ (err e, (close os d').1) ]

  -- copyFile
  unfoldable pub copy_file : Text → Text → ℕ → Io (Unit {0})
  copy_file src dst perm = do
    content ← or_wrap (text "read " ++ src) (read_file os src)
    or_wrap (text "write " ++ dst) (write_file os dst content perm)

  unfoldable pub write_temp : Text → Text → Text → Io (Unit {0})
  write_temp tmp path content =
      or_close (or_wrap (text "write temp for " ++ path) (write os tmp 384 content))

  unfoldable pub set_bits : Text → Text → Text → ℕ → Io (Unit {0})
  set_bits tmp path content perm =
      or_close (or_wrap (text "chmod temp for " ++ path) (chmod os tmp content perm))

  unfoldable pub close_and_rename : Text → Text → Io (Unit {0})
  close_and_rename tmp path = do
    or_wrap (text "close temp for " ++ path) (close os)
    or_wrap (text "rename temp to " ++ path) (rename os tmp path)

  -- The body of WriteAtomic between the creation of the temporary file and its removal.
  unfoldable pub fill_and_rename : Text → Text → Text → ℕ → Io (Unit {0})
  fill_and_rename tmp path content perm = do
    write_temp tmp path content
    set_bits tmp path content perm
    close_and_rename tmp path

  -- The removal is deferred, and its result is dropped. The outcome is (true, nil) or (false, err).
  unfoldable pub then_remove : Text → Io (Unit {0}) → Io Bool
  then_remove tmp m d =
      let (res, d') = m d in (elim res [ ok _ ↦ ok true | err e ↦ err e ], remove os tmp d')

  unfoldable pub replace_file : Text → Text → ℕ → Io Bool
  replace_file path content perm = do
    tmp ← or_wrap (text "create temp for " ++ path) (create_temp os path)
    then_remove tmp (fill_and_rename tmp path content perm)

  -- WriteAtomic
  unfoldable pub write_atomic : Text → Text → ℕ → Io Bool
  write_atomic path content perm d =
      let (existing, d₁) = read_file os path d in
      elim existing [
        | err _ ↦ replace_file path content perm d₁
        | ok old ↦
            if same old content
            then (ok false, d₁)
            else (copy_file path (backup_of path) perm >> replace_file path content perm) d₁
      ]

  unfoldable pub bring_back : Text → Option File → Io (Unit {0})
  bring_back path none = pure tt
  bring_back path (some _) = or_wrap (text "restore " ++ path) (rename os (backup_of path) path)

  -- Restore
  unfoldable pub restore : Text → Io (Unit {0})
  restore path = do found ← stat os (backup_of path); bring_back path found
