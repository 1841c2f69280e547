-- ===== src/Disk.antt =====
-- The calls of package os that internal/atomicfile makes, on a file system whose every call may fail.
--
-- The standard library's files: a path names at most one file, a file has its bytes and its
-- permission bits. The n-th call fails if `fault n` says so; a write that fails has written the first
-- `torn n` bytes. Directories are not kept: a call in a missing directory is one that fails,
-- and the directories in a directory are not listed.

pub mod Keeps
use lbsync.Prelude.{
  ◌||◌, Bool, false, if◌then◌else◌, same, less, List, ◌∷◌, wrapped, ℤ, ℕ, suc, Text, text, Option,
  none, some, [], take, Result, ok, err, Error, message,
}
use lbsync.Prelude.Dict.{keys, Dict, lookup, insert, erase}
use lbsync.Prelude.Sorting.{sort_by}
use lbsync.Paths.{within, strip_prefix, has}

pub record File : Type 0 where
  pub content : Text
  pub perm : ℕ

pub record Disk : Type 0 where
  pub files : Dict File
  pub calls : ℕ

-- `temp n path` is the name that `os.CreateTemp` draws in the directory of `path` at the n-th call,
-- `modified n path` the modification time that `os.Stat` gives there, in Unix seconds.
pub record Os : Type 0 where
  pub fault : ℕ → Option Error
  pub torn : ℕ → ℕ
  pub temp : ℕ → Text → Text
  pub modified : ℕ → Text → ℤ

abbrev pub not_exist : Error
not_exist = message (text "file does not exist")

abbrev pub at : Disk → Text → Option File
at d path = lookup d.files path

abbrev pub called : Disk → Disk
called d = record d { calls = suc d.calls }

abbrev pub put_file : Text → File → Disk → Disk
put_file path f d = record d { files = insert d.files path f }

abbrev pub drop_file : Text → Disk → Disk
drop_file path d = record d { files = erase d.files path }

abbrev pub content_of : Option File → Result Text
content_of none = err not_exist
content_of (some f) = ok f.content

abbrev pub move : Option File → Text → Text → Disk → Result (Unit {0}) × Disk
move none from to d = (err not_exist, called d)
move (some f) from to d = (ok tt, called (put_file to f (drop_file from d)))

-- os.IsNotExist
unfoldable pub is_not_exist : Error → Bool
is_not_exist (message what) = same what (text "file does not exist")
is_not_exist (wrapped what e) = false

abbrev pub onto_names : Option Text → List Text → List Text
onto_names none names = names
onto_names (some name) names = if same name [] || has b'/' name then names else name ∷ names

-- The files that stand in a directory: the paths that its path and one more name make up.
unfoldable pub names_in : Text → List Text → List Text
names_in dir [] = []
names_in dir (path ∷ paths) = onto_names (strip_prefix (within dir) path) (names_in dir paths)

module _ (os : Os) where
  -- A call that fails leaves the files as they are, or does `fallen`.
  abbrev pub attempt : {A : Type 0} → Disk → (Error → Disk) → Result A × Disk → Result A × Disk
  attempt d fallen done = elim (os.fault d.calls) [ none ↦ done | some e ↦ (err e, fallen e) ]

  -- os.ReadFile
  unfoldable pub read_file : Text → Disk → Result Text × Disk
  read_file path d = attempt d (λ _. called d) (content_of (at d path), called d)

  -- os.Stat: whether the file is there.
  unfoldable pub stat : Text → Disk → Result (Option File) × Disk
  stat path d = attempt d (λ _. called d) (ok (at d path), called d)

  -- info.ModTime().Unix() of os.Stat, of a file that is there.
  unfoldable pub stat_time : Text → Disk → Result ℤ × Disk
  stat_time path d =
      attempt d (λ _. called d)
        (
          elim (at d path) [ none ↦ err not_exist | some _ ↦ ok (os.modified d.calls path) ],
          called d,
        )

  -- The bits of a file that is there stay when it is opened for writing.
  abbrev pub perm_at : Option File → ℕ → ℕ
  perm_at none perm = perm
  perm_at (some f) perm = f.perm

  -- Writing to the open file `path`.
  unfoldable pub write : Text → ℕ → Text → Disk → Result (Unit {0}) × Disk
  write path perm data_ d =
      attempt d
        (λ _.
          called (put_file path (record { content = take (os.torn d.calls) data_; perm = perm }) d))
        (ok tt, called (put_file path (record { content = data_; perm = perm }) d))

  -- os.WriteFile opens and truncates the file, and then writes.
  unfoldable pub write_file : Text → Text → ℕ → Disk → Result (Unit {0}) × Disk
  write_file path data_ perm d =
      attempt d (λ _. called d)
        (let bits = perm_at (at d path) perm in
          write path bits data_ (called (put_file path (record { content = []; perm = bits }) d)))

  -- os.CreateTemp makes an empty file with the bits 0600.
  unfoldable pub create_temp : Text → Disk → Result Text × Disk
  create_temp path d =
      let name = os.temp d.calls path in
      attempt d (λ _. called d)
        (ok name, called (put_file name (record { content = []; perm = 384 }) d))

  -- tmp.Chmod, on a file with that content
  unfoldable pub chmod : Text → Text → ℕ → Disk → Result (Unit {0}) × Disk
  chmod path data_ perm d =
      attempt d (λ _. called d)
        (ok tt, called (put_file path (record { content = data_; perm = perm }) d))

  -- tmp.Close
  unfoldable pub close : Disk → Result (Unit {0}) × Disk
  close d = attempt d (λ _. called d) (ok tt, called d)

  -- os.Rename replaces the file at `to`.
  unfoldable pub rename : Text → Text → Disk → Result (Unit {0}) × Disk
  rename from to d = attempt d (λ _. called d) (move (at d from) from to d)

  -- os.Remove
  unfoldable pub remove : Text → Disk → Disk
  remove path d = elim (os.fault d.calls) [ none ↦ called (drop_file path d) | some e ↦ called d ]

  -- os.MkdirAll
  unfoldable pub mkdir_all : Disk → Result (Unit {0}) × Disk
  mkdir_all d = attempt d (λ _. called d) (ok tt, called d)

  -- The names that os.ReadDir gives, in its order.
  unfoldable pub read_dir : Text → Disk → Result (List Text) × Disk
  read_dir dir d =
      attempt d (λ _. called d) (ok (sort_by less (names_in dir (keys d.files))), called d)
