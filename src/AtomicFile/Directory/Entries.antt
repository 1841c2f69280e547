-- ===== src/AtomicFile/Directory/Entries.antt =====
-- The loop of `RestoreDir` of internal/atomicfile/atomicfile.go, seen from one file and its backup.
use mathlib.Core.Path.{subst}
use lbsync.Prelude.{
  ◌≡◌, ◌∙◌, refl, sym, ap, inl, inr, arith, Text, same, same_iff, same_ne, same-append_left,
  contains, Bool-cases, true, false, Option, none, some, List, [], ◌∷◌, ◌++◌, All, Result, ok,
  err-ne-ok,
}
use lbsync.Prelude.Steps.{or_wrap, bind_elim, or_wrap-eq-ok, or_wrap-state}
use lbsync.Paths.{join, within}
use lbsync.Paths.Plain.{IsPlain, join-plain}
use lbsync.Disk.{File, Disk, Os, at, rename}
use lbsync.Disk.Keeps.{Keeps, attempt_elim, rename-Keeps}
use lbsync.AtomicFile.{Io, backup_suffix, backup_of}
use lbsync.AtomicFile.Backup.{same-path-backup}
use lbsync.AtomicFile.Restore.{rename-moves}
use lbsync.AtomicFile.Rules.{Keeps-or_wrap}
use lbsync.AtomicFile.Directory.{cut_suffix, restore_entry, restore_entries}
use lbsync.AtomicFile.Directory.Suffix.{cut_suffix-eq, cut_suffix-append, IsPlain-backup_of}

abbrev pub PlainCut : Option Text → Type 0
PlainCut none = Unit {0}
PlainCut (some o) = IsPlain o

-- The name is not that of a backup, or it is that of the backup of a plain name.
abbrev pub IsTidy : Text → Type 0
IsTidy m = PlainCut (cut_suffix backup_suffix m)

module _ (os : Os) where
  rename_missing :
      (from to : Text) (d : Disk) → at d from ≡ none → (rename os from to d).0 ≡ ok tt → ⊥
  unfolding rename
  rename_missing from to d gone =
      attempt_elim os (λ r. r.0 ≡ ok tt → ⊥) d _ _ (λ e h. err-ne-ok h) (rw gone (λ h. err-ne-ok h))

module _ (os : Os) (dir name : Text) (plain : IsPlain name)
    (no_backup : cut_suffix backup_suffix name ≡ none) where
  abbrev file : Text
  file = within dir ++ name

  abbrev bak : Text
  bak = within dir ++ backup_of name

  -- The entry is neither the backup nor a backup of the backup.
  abbrev Other : Text → Type 0
  Other m = (same m (backup_of name) ≡ false) × (same m (backup_of (backup_of name)) ≡ false)

  moved_elsewhere :
      (m o : Text)
      → cut_suffix backup_suffix m ≡ some o
      → Other m
      → ((same m name ≡ false) × (same o name ≡ false)) × (same o (backup_of name) ≡ false)
  moved_elsewhere m o h (ne, ne') =
      let m-eq = cut_suffix-eq backup_suffix m o h in
      (
        (
          same_ne m name (λ e. cc (no_backup, ap (cut_suffix backup_suffix) e, h)),
          same_ne o name (λ e.
              cc (ne, (same_iff m (backup_of name)).1 (m-eq ∙ ap (λ (t : Text). backup_of t) e))),
        ),
        same_ne o (backup_of name) (λ e. cc (
          ne',
          (same_iff m (backup_of (backup_of name))).1 (m-eq ∙ ap (λ (t : Text). backup_of t) e),
        )),
      )

  -- The paths of an entry that is restored.
  entry_paths :
      (m o : Text)
      → cut_suffix backup_suffix m ≡ some o
      → IsPlain o
      → (join (dir ∷ m ∷ []) ≡ within dir ++ m) × (join (dir ∷ o ∷ []) ≡ within dir ++ o)
  entry_paths m o h p = (
    rw (cut_suffix-eq backup_suffix m o h) (join-plain dir (backup_of o) (IsPlain-backup_of o p)),
    join-plain dir o p,
  )

  -- Another entry leaves the file and its backup as they are.
  entry-Keeps :
      (m : Text) (o : Option Text)
      → cut_suffix backup_suffix m ≡ o
      → PlainCut o
      → Other m
      → Keeps file (restore_entry os dir m o) × Keeps bak (restore_entry os dir m o)
  unfolding restore_entry
  entry-Keeps m none h tidy other = (record { kept = λ d. refl }, record { kept = λ d. refl })
  entry-Keeps m (some o) h p other =
      let (from, to) = entry_paths m o h p in
      let ((nf, nt), nb) = moved_elsewhere m o h other in
      rw (from, to)
        (
          Keeps-or_wrap _ _ (
              rename-Keeps os file (within dir ++ m) (within dir ++ o)
                (same-append_left (within dir) m name ∙ nf)
                (same-append_left (within dir) o name ∙ nt)),
          Keeps-or_wrap _ _ (
              rename-Keeps os bak (within dir ++ m) (within dir ++ o)
                (same-append_left (within dir) m (backup_of name) ∙ other.0)
                (same-append_left (within dir) o (backup_of name) ∙ nb)),
        )

  -- The file and its backup after the backup was moved back from `d`.
  abbrev Back : Disk → Disk → Type 0
  Back d e = (f : File) × (at d bak ≡ some f) × (at e file ≡ some f) × (at e bak ≡ none)

  moved-Back :
      (what : Text) (d : Disk)
      → (or_wrap what (rename os bak file) d).0 ≡ ok tt
      → Back d (or_wrap what (rename os bak file) d).1
  moved-Back what d h = by_found (at d bak) refl
    where
      by_found : (o : Option File) → at d bak ≡ o → Back d (or_wrap what (rename os bak file) d).1
      by_found none gone =
          absurd
            (rename_missing os bak file d gone (or_wrap-eq-ok what (rename os bak file) d tt h))
      by_found (some f) there =
          let (moved, left) =
            rename-moves os bak file d f
              (same-append_left (within dir) name (backup_of name) ∙ same-path-backup name) there
              (or_wrap-eq-ok what (rename os bak file) d tt h) in
          rw (or_wrap-state what (rename os bak file) d) (f, there, moved, left)

  entry_of_bak :
      (d : Disk)
      → (restore_entry os dir (backup_of name) (some name) d).0 ≡ ok tt
      → Back d (restore_entry os dir (backup_of name) (some name) d).1
  unfolding restore_entry
  entry_of_bak d =
      rw (join-plain dir name plain, join-plain dir (backup_of name) (IsPlain-backup_of name plain))
        (moved-Back _ d)

  abbrev Then : Option File → Disk → Result (Unit {0}) × Disk → Type 0
  Then there d r = r.0 ≡ ok tt → (at r.1 file ≡ there) × (at r.1 bak ≡ none)

  abbrev entry : Text → Io (Unit {0})
  entry m = restore_entry os dir m (cut_suffix backup_suffix m)

  entry-Back :
      (m : Text) (d : Disk)
      → same m (backup_of name) ≡ true
      → (entry m d).0 ≡ ok tt
      → Back d (entry m d).1
  entry-Back m d e =
      subst (λ (x : Text). (entry x d).0 ≡ ok tt → Back d (entry x d).1)
        (sym ((same_iff m (backup_of name)).0 e))
        (subst
          (λ (o : Option Text).
            (restore_entry os dir (backup_of name) o d).0 ≡ ok tt
            → Back d (restore_entry os dir (backup_of name) o d).1)
          (sym (cut_suffix-append backup_suffix name)) (entry_of_bak d))

  -- The loop when the backup is not there.
  loop_gone :
      (ns : List Text) (d : Disk)
      → All IsTidy ns
      → contains ns (backup_of (backup_of name)) ≡ false
      → at d bak ≡ none
      → Then (at d file) d (restore_entries os dir ns d)
  unfolding restore_entries contains
  loop_gone [] d tidy fresh gone = λ h. (refl, gone)
  loop_gone (m ∷ ns) d tidy fresh gone =
      bind_elim (Then (at d file) d) (entry m) (λ u. restore_entries os dir ns) d
        (λ u h. elim (Bool-cases (same m (backup_of name))) [
          | inl e ↦ let (f, there, moved, left) = entry-Back m d e h in cc (gone, there)
          | inr e ↦
              let (kf, kb) = entry-Keeps m _ refl tidy.0 (e, ground arith) in
              rw (kf.kept d) at
                (loop_gone ns (entry m d).1 tidy.1 (ground arith) (kb.kept d ∙ gone))
        ])
        (λ e h k. absurd (err-ne-ok k))

  -- The loop when the backup is there and among the names.
  pub loop_there :
      (ns : List Text) (d : Disk) (f : File)
      → All IsTidy ns
      → contains ns (backup_of (backup_of name)) ≡ false
      → contains ns (backup_of name) ≡ true
      → at d bak ≡ some f
      → Then (some f) d (restore_entries os dir ns d)
  unfolding restore_entries contains
  loop_there [] d f tidy fresh listed there = cc
  loop_there (m ∷ ns) d f tidy fresh listed there =
      bind_elim (Then (some f) d) (entry m) (λ u. restore_entries os dir ns) d
        (λ u h. elim (Bool-cases (same m (backup_of name))) [
          | inl e ↦
              let (g, held, moved, left) = entry-Back m d e h in
              rw (moved ∙ sym held ∙ there) at
                (loop_gone ns (entry m d).1 tidy.1 (ground arith) left)
          | inr e ↦
              let (kf, kb) = entry-Keeps m _ refl tidy.0 (e, ground arith) in
              loop_there ns (entry m d).1 f tidy.1 (ground arith) (ground arith) (kb.kept d ∙ there)
        ])
        (λ e h k. absurd (err-ne-ok k))
