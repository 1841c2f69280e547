-- ===== src/AtomicFile/Replace.antt =====
-- `WriteAtomic` of internal/atomicfile/atomicfile.go replaces a file as a whole or not at all,
-- whichever of its calls fail.
use mathlib.Core.Path.{subst}
use lbsync.Prelude.{
  err-ne-ok, ok-injective, ℕ, ◌≡◌, ◌∙◌, refl, Text, text, same, same_refl, Bool, true, false,
  Option, some, Result, ok, err, ◌++◌,
}
use lbsync.Prelude.Dict.{lookup-insert}
use lbsync.Prelude.Steps.{◌>>=◌, ◌>>◌, or_wrap, bind_elim, or_wrap_elim, or_wrap-eq-ok}
use lbsync.Disk.{File, Disk, Os, at, create_temp, chmod, close, rename}
use lbsync.Disk.Keeps.{
  Keeps, attempt_elim, write-Keeps, chmod-Keeps, close-Keeps, create_temp-Keeps, remove-keeps,
}
use lbsync.AtomicFile.{
  Io, write_temp, set_bits, close_and_rename, then_remove, fill_and_rename, replace_file,
}
use lbsync.AtomicFile.Rules.{or_close_elim, Keeps-or_wrap, Keeps-or_close}

-- On success the file is the new one, on an error it is the old one.
abbrev pub Ends : {A : Type 0} → Result A → Option File → File → Option File → Type 0
Ends (ok _) old new after = after ≡ some new
Ends (err _) old new after = after ≡ old

-- The name of a temporary file that was made is one that is drawn.
module _ (os : Os) (path q : Text) (drawn : (n : ℕ) → same (os.temp n path) q ≡ false) where
  abbrev IsOther : Result Text × Disk → Type 0
  IsOther r = (a : Text) → r.0 ≡ ok a → same a q ≡ false

  create_temp-IsOther : (d : Disk) → IsOther (create_temp os path d)
  unfolding create_temp
  create_temp-IsOther d =
      attempt_elim os IsOther d _ _ (λ e a h. absurd (err-ne-ok h))
        (λ a h. subst (λ (x : Text). same x q ≡ false) (ok-injective h) (drawn d.calls))

  pub drawn-ne :
      (tmp : Text) (d : Disk)
      → (or_wrap (text "create temp for " ++ path) (create_temp os path) d).0 ≡ ok tmp
      → same tmp q ≡ false
  drawn-ne tmp d h =
      create_temp-IsOther d tmp
        (or_wrap-eq-ok (text "create temp for " ++ path) (create_temp os path) d tmp h)

module _ (os : Os) (path content : Text) (perm : ℕ) where
  abbrev pub new : File
  new = record { content = content; perm = perm }

  abbrev pub Atomic : {A : Type 0} → Disk → Result A × Disk → Type 0
  Atomic d r = Ends r.0 (at d path) new (at r.1 path)

  -- After calls that keep the file, a last part that replaces it or not.
  Atomic-bind :
      {A B : Type 0} (m : Io A) (f : A → Io B) (d : Disk)
      → Keeps path m
      → ((a : A) (d' : Disk) → Atomic d' (f a d'))
      → Atomic d ((m >>= f) d)
  Atomic-bind m f d km last =
      bind_elim (Atomic d) m f d (λ a _. rw (km.kept d) at (last a (m d).1)) (λ e _. km.kept d)

  Atomic-or_wrap :
      {A : Type 0} (what : Text) (m : Io A) (d : Disk)
      → Atomic d (m d)
      → Atomic d (or_wrap what m d)
  Atomic-or_wrap what m d h = or_wrap_elim (Atomic d) what m d (λ a e. rw e at h) (λ x e. rw e at h)

  -- A rename of a file that is the new one.
  rename-Atomic : (tmp : Text) (d : Disk) → at d tmp ≡ some new → Atomic d (rename os tmp path d)
  unfolding rename
  rename-Atomic tmp d h =
      attempt_elim os (Atomic d) d _ _ (λ e. refl) (rw h (rw (lookup-insert, same_refl path)))

  -- If the bits were set, the temporary file is the new one.
  abbrev WhenOk : {A : Type 0} → Text → Result A × Disk → Type 0
  WhenOk {A} tmp r = (a : A) → r.0 ≡ ok a → at r.1 tmp ≡ some new

  chmod-WhenOk : (tmp : Text) (d : Disk) → WhenOk tmp (chmod os tmp content perm d)
  unfolding chmod
  chmod-WhenOk tmp d =
      attempt_elim os (WhenOk tmp) d _ _ (λ e a h. absurd (cc))
        (λ a h. rw (lookup-insert, same_refl tmp))

  set_bits-WhenOk : (tmp : Text) (d : Disk) → WhenOk tmp (set_bits os tmp path content perm d)
  unfolding set_bits
  set_bits-WhenOk tmp d =
      let what = text "chmod temp for " ++ path in
      or_close_elim (WhenOk tmp) os (or_wrap what (chmod os tmp content perm)) d
        (or_wrap_elim (λ r. (a : Unit) → r.0 ≡ ok a → WhenOk tmp (ok a, r.1)) what
          (chmod os tmp content perm) d (λ a h b k c l. chmod-WhenOk tmp d a h)
          (λ e h a k. absurd (err-ne-ok k)))
        (λ e h a k. absurd (err-ne-ok k))

  set_bits-Keeps :
      (tmp : Text) → same tmp path ≡ false → Keeps path (set_bits os tmp path content perm)
  unfolding set_bits
  set_bits-Keeps tmp ne =
      Keeps-or_close os _ (Keeps-or_wrap _ _ (chmod-Keeps os path tmp content perm ne))

  write_temp-Keeps :
      (tmp : Text) → same tmp path ≡ false → Keeps path (write_temp os tmp path content)
  unfolding write_temp
  write_temp-Keeps tmp ne =
      Keeps-or_close os _ (Keeps-or_wrap _ _ (write-Keeps os path tmp 384 content ne))

  close_and_rename-Atomic :
      (tmp : Text) (d : Disk) → at d tmp ≡ some new → Atomic d (close_and_rename os tmp path d)
  unfolding close_and_rename
  close_and_rename-Atomic tmp d h =
      let closing = or_wrap (text "close temp for " ++ path) (close os) in
      let kept = λ (q : Text).
        (Keeps-or_wrap (text "close temp for " ++ path) (close os) (close-Keeps os q)).kept d in
      bind_elim (Atomic d) closing
        (λ _. or_wrap (text "rename temp to " ++ path) (rename os tmp path)) d
        (λ a k. rw (kept path) at (
          Atomic-or_wrap (text "rename temp to " ++ path) (rename os tmp path) (closing d).1
            (rename-Atomic tmp (closing d).1 (kept tmp ∙ h))))
        (λ e k. kept path)

  fill_and_rename-Atomic :
      (tmp : Text) (d : Disk)
      → same tmp path ≡ false
      → Atomic d (fill_and_rename os tmp path content perm d)
  unfolding fill_and_rename
  fill_and_rename-Atomic tmp d ne =
      Atomic-bind (write_temp os tmp path content)
        (λ _. set_bits os tmp path content perm >> close_and_rename os tmp path) d
        (write_temp-Keeps tmp ne)
        λ _ d₁.
          bind_elim (Atomic d₁) (set_bits os tmp path content perm)
            (λ _. close_and_rename os tmp path) d₁
            (λ a h. rw ((set_bits-Keeps tmp ne).kept d₁) at (
              close_and_rename-Atomic tmp (set_bits os tmp path content perm d₁).1
                (set_bits-WhenOk tmp d₁ a h)))
            (λ e h. (set_bits-Keeps tmp ne).kept d₁)

  then_remove-Atomic :
      (tmp : Text) (m : Io (Unit {0})) (d : Disk)
      → same tmp path ≡ false
      → Atomic d (m d)
      → Atomic d (then_remove os tmp m d)
  unfolding then_remove
  then_remove-Atomic tmp m d ne h = rw (remove-keeps os path tmp (m d).1 ne) (go (m d).0 h)
    where
      go :
          (r : Result (Unit {0}))
          → Ends r (at d path) new (at (m d).1 path)
          → Ends {A = Bool}
              (elim r [ ok _ ↦ ok true | err e ↦ err e ])
              (at d path)
              new
              (at (m d).1 path)
      go (ok a) k = k
      go (err e) k = k

  module _ (drawn : (n : ℕ) → same (os.temp n path) path ≡ false) where
    pub replace_file-Atomic : (d : Disk) → Atomic d (replace_file os path content perm d)
    unfolding replace_file
    replace_file-Atomic d =
        let what = text "create temp for " ++ path in
        let kept =
          Keeps-or_wrap what (create_temp os path) (create_temp-Keeps os path path drawn) in
        bind_elim (Atomic d) (or_wrap what (create_temp os path))
          (λ tmp. then_remove os tmp (fill_and_rename os tmp path content perm)) d
          (λ tmp h.
            let ne = drawn-ne os path path drawn tmp d h in
            rw (kept.kept d) at (
              then_remove-Atomic tmp (fill_and_rename os tmp path content perm)
                (or_wrap what (create_temp os path) d).1 ne (fill_and_rename-Atomic tmp _ ne)))
          (λ e h. kept.kept d)
