-- ===== src/Disk/Keeps.antt =====
-- Which files a call of package os leaves as they are (`Disk`), and how that passes through the
-- sequences of calls of internal/atomicfile/atomicfile.go.
use lbsync.Prelude.{ℕ, ◌≡◌, ◌∙◌, refl, Text, same, false, Option, none, some, Result, err, Error}
use lbsync.Prelude.Dict.{Dict, lookup, insert, erase, lookup-insert, lookup-erase}
use lbsync.Disk.{
  File, Disk, Os, at, attempt, move, called, drop_file, read_file, stat, write, write_file,
  create_temp, chmod, close, rename, remove,
}

lookup-insert_ne :
    (m : Dict File) (p : Text) (f : File) (q : Text)
    → same p q ≡ false
    → lookup (insert m p f) q ≡ lookup m q
lookup-insert_ne m p f q h = rw (lookup-insert, h)

lookup-erase_ne :
    (m : Dict File) (p q : Text) → same p q ≡ false → lookup (erase m p) q ≡ lookup m q
lookup-erase_ne m p q h = rw (lookup-erase, h)

module _ (os : Os) where
  -- What holds of a failed and of a successful call holds of the call.
  pub attempt_elim :
      {A : Type 0} (Q : Result A × Disk → Type 0) (d : Disk) (fallen : Error → Disk)
      (done : Result A × Disk)
      → ((e : Error) → Q (err e, fallen e))
      → Q done
      → Q (attempt os d fallen done)
  attempt_elim Q d fallen done failed fine =
      elim (os.fault d.calls) as (λ x. Q (elim x [ none ↦ done | some e ↦ (err e, fallen e) ])) [
        | none ↦ fine
        | some e ↦ failed e
      ]

-- The file at `q` is after `m` what it was before, however `m` ends.
pub record Keeps {A : Type 0} (q : Text) (m : Disk → Result A × Disk) : Type 0 where
  pub kept : (d : Disk) → at (m d).1 q ≡ at d q

module _ (os : Os) (q : Text) where
  pub read_file-Keeps : (p : Text) → Keeps q (read_file os p)
  unfolding read_file
  read_file-Keeps p = record {
    kept = λ d. attempt_elim os (λ r. at r.1 q ≡ at d q) d _ _ (λ e. refl) refl;
  }

  pub stat-Keeps : (p : Text) → Keeps q (stat os p)
  unfolding stat
  stat-Keeps p = record {
    kept = λ d. attempt_elim os (λ r. at r.1 q ≡ at d q) d _ _ (λ e. refl) refl;
  }

  pub close-Keeps : Keeps q (close os)
  unfolding close
  close-Keeps = record {
    kept = λ d. attempt_elim os (λ r. at r.1 q ≡ at d q) d _ _ (λ e. refl) refl;
  }

  pub write-Keeps :
      (p : Text) (perm : ℕ) (content : Text) → same p q ≡ false → Keeps q (write os p perm content)
  unfolding write
  write-Keeps p perm content ne = record {
    kept = λ d.
        attempt_elim os (λ r. at r.1 q ≡ at d q) d _ _ (λ e. lookup-insert_ne d.files p _ q ne)
          (lookup-insert_ne d.files p _ q ne);
  }

  pub write_file-Keeps :
      (p content : Text) (perm : ℕ) → same p q ≡ false → Keeps q (write_file os p content perm)
  unfolding write_file
  write_file-Keeps p content perm ne = record {
    kept = λ d.
        attempt_elim os (λ r. at r.1 q ≡ at d q) d _ _ (λ e. refl)
          ((write-Keeps p _ content ne).kept _ ∙ lookup-insert_ne d.files p _ q ne);
  }

  pub chmod-Keeps :
      (p content : Text) (perm : ℕ) → same p q ≡ false → Keeps q (chmod os p content perm)
  unfolding chmod
  chmod-Keeps p content perm ne = record {
    kept = λ d.
        attempt_elim os (λ r. at r.1 q ≡ at d q) d _ _ (λ e. refl)
          (lookup-insert_ne d.files p _ q ne);
  }

  -- The name that is drawn is not `q`.
  pub create_temp-Keeps :
      (p : Text) → ((n : ℕ) → same (os.temp n p) q ≡ false) → Keeps q (create_temp os p)
  unfolding create_temp
  create_temp-Keeps p ne = record {
    kept = λ d.
        attempt_elim os (λ r. at r.1 q ≡ at d q) d _ _ (λ e. refl)
          (lookup-insert_ne d.files (os.temp d.calls p) _ q (ne d.calls));
  }

  move-Keeps :
      (found : Option File) (from to : Text) (d : Disk)
      → same from q ≡ false
      → same to q ≡ false
      → at (move found from to d).1 q ≡ at d q
  move-Keeps none from to d nf nt = refl
  move-Keeps (some f) from to d nf nt =
      lookup-insert_ne (erase d.files from) to f q nt ∙ lookup-erase_ne d.files from q nf

  pub rename-Keeps :
      (from to : Text) → same from q ≡ false → same to q ≡ false → Keeps q (rename os from to)
  unfolding rename
  rename-Keeps from to nf nt = record {
    kept = λ d.
        attempt_elim os (λ r. at r.1 q ≡ at d q) d _ _ (λ e. refl)
          (move-Keeps (at d from) from to d nf nt);
  }

  pub remove-keeps : (p : Text) (d : Disk) → same p q ≡ false → at (remove os p d) q ≡ at d q
  unfolding remove
  remove-keeps p d ne =
      elim (os.fault d.calls)
        as (λ x. at (elim x [ none ↦ called (drop_file p d) | some e ↦ called d ]) q ≡ at d q) [
          | none ↦ lookup-erase_ne d.files p q ne
          | some e ↦ refl
        ]
