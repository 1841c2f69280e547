-- ===== src/AtomicFile/Backup.antt =====
-- The backup of internal/atomicfile/atomicfile.go: what `WriteAtomic` keeps, and what `Restore`
-- brings back.
use mathlib.Core.Path.{subst}
use lbsync.Prelude.{
  ℕ, ◌≡◌, ◌∙◌, sym, ap, refl, Text, text, same, same_refl, same_iff, Bool, Bool-cases, true, false,
  Option, none, some, inl, inr, Result, ok, err, err-ne-ok, Error, ◌++◌,
}
use lbsync.Prelude.Dict.{lookup-insert}
use lbsync.Prelude.Steps.{◌>>◌, or_wrap, bind_elim, or_wrap-eq-ok, or_wrap-state}
use lbsync.Disk.{File, Disk, Os, at, called, content_of, read_file, write_file, write}
use lbsync.Disk.Keeps.{attempt_elim, read_file-Keeps}
use lbsync.AtomicFile.{Io, backup_of, replace_file, copy_file, write_atomic}
use lbsync.AtomicFile.Frame.{replace_file-keeps}
use lbsync.AtomicFile.Write.{read_file-content, same-backup_of}

pub read_file_found :
    (os : Os) (path : Text) (d : Disk) (f : File)
    → at d path ≡ some f
    → os.fault d.calls ≡ none
    → (read_file os path d).0 ≡ ok f.content
unfolding read_file
read_file_found os path d f there calm =
    ap (λ (r : Result Text × Disk). r.0)
      (ap
        (λ (x : Option Error). elim x [
          | none ↦ (content_of (at d path), called d)
          | some e ↦ (err e, called d)
        ])
        calm)
    ∙ ap content_of there

-- A file is there, with that content.
abbrev pub Holds : Option File → Text → Type 0
Holds o c = (f : File) × (o ≡ some f) × (f.content ≡ c)

pub same-path-backup : (path : Text) → same path (backup_of path) ≡ false
same-path-backup path = elim (Bool-cases (same path (backup_of path))) [
  | inl h ↦ cc (
    same-backup_of path,
    subst (λ (x : Text). same x path ≡ true) ((same_iff path (backup_of path)).0 h)
        (same_refl path),
  )
  | inr h ↦ h
]

module _ (os : Os) where
  -- A write that succeeds leaves what was written.
  write-content :
      (p : Text) (bits : ℕ) (c : Text) (d : Disk)
      → (write os p bits c d).0 ≡ ok tt
      → at (write os p bits c d).1 p ≡ some (record { content = c; perm = bits })
  unfolding write
  write-content p bits c d =
      attempt_elim os (λ r. r.0 ≡ ok tt → at r.1 p ≡ some (record { content = c; perm = bits })) d _
        _ (λ e h. absurd (err-ne-ok h)) (λ h. rw (lookup-insert, same_refl p))

  write_file-Holds :
      (p c : Text) (bits : ℕ) (d : Disk)
      → (write_file os p c bits d).0 ≡ ok tt
      → Holds (at (write_file os p c bits d).1 p) c
  unfolding write_file
  write_file-Holds p c bits d =
      attempt_elim os (λ r. r.0 ≡ ok tt → Holds (at r.1 p) c) d _ _ (λ e h. absurd (err-ne-ok h))
        (λ h. (_, write-content p _ c _ h, refl))

module _ (os : Os) (path : Text) (perm : ℕ) where
  abbrev bak : Text
  bak = backup_of path

  abbrev reading : Io Text
  reading = or_wrap (text "read " ++ path) (read_file os path)

  abbrev saving : Text → Io (Unit {0})
  saving c = or_wrap (text "write " ++ bak) (write_file os bak c perm)

  abbrev WhenCopied : Text → Result (Unit {0}) × Disk → Type 0
  WhenCopied c r = r.0 ≡ ok tt → Holds (at r.1 bak) c

  copy_file-Holds :
      (d : Disk) (old : File)
      → at d path ≡ some old
      → WhenCopied old.content (copy_file os path bak perm d)
  unfolding copy_file
  copy_file-Holds d old there =
      bind_elim (WhenCopied old.content) reading saving d
        (λ c h l.
          let (f, found, same_content) =
            read_file-content os path d c
              (or_wrap-eq-ok (text "read " ++ path) (read_file os path) d c h) in
          let (g, saved, holds) =
            write_file-Holds os bak c perm (reading d).1 (
              or_wrap-eq-ok (text "write " ++ bak) (write_file os bak c perm) (reading d).1 tt l) in
          let e : f ≡ old = cc (found, there) in
          (
            g,
            ap (λ (d' : Disk). at d' bak)
                  (or_wrap-state (text "write " ++ bak) (write_file os bak c perm) (reading d).1)
                ∙ saved,
            holds ∙ sym same_content ∙ ap (λ (x : File). x.content) e,
          ))
        (λ e h k. absurd (err-ne-ok k))

module _ (os : Os) (path content : Text) (perm : ℕ)
    (drawn : (n : ℕ) → same (os.temp n path) (backup_of path) ≡ false) where
  abbrev pub WhenReplaced : Text → Result Bool × Disk → Type 0
  WhenReplaced c r = r.0 ≡ ok true → Holds (at r.1 (backup_of path)) c

  backed_up-Holds :
      (d : Disk) (old : File)
      → at d path ≡ some old
      → WhenReplaced old.content
          ((copy_file os path (backup_of path) perm >> replace_file os path content perm) d)
  backed_up-Holds d old there =
      bind_elim (WhenReplaced old.content) (copy_file os path (backup_of path) perm)
        (λ _. replace_file os path content perm) d
        (λ a h k.
          let (f, saved, e) = copy_file-Holds os path perm d old there h in
          (
            f,
            replace_file-keeps os path content perm (backup_of path) (same-path-backup path) drawn _
                ∙ saved,
            e,
          ))
        (λ e h k. absurd (err-ne-ok k))

  -- If the old file can be read and `true` is reported, the backup holds the old content.
  pub write_atomic-backup :
      (d : Disk) (old : File)
      → at d path ≡ some old
      → os.fault d.calls ≡ none
      → WhenReplaced old.content (write_atomic os path content perm d)
  unfolding write_atomic
  write_atomic-backup d old there readable = elim (Bool-cases (same old.content content)) [
    | inl eq ↦ rw (read_file_found os path d old there readable, eq, write_atomic) (λ h. cc)
    | inr ne ↦
        rw (read_file_found os path d old there readable, ne, write_atomic)
          (backed_up-Holds (read_file os path d).1 old
            ((read_file-Keeps os path path).kept d ∙ there))
  ]
