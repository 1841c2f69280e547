-- ===== src/AtomicFile/Rules.antt =====
-- Rules for the sequences of calls of internal/atomicfile/atomicfile.go: what holds at the end.
use lbsync.Prelude.{◌≡◌, ◌∙◌, refl, Text, Result, ok, err, Error}
use lbsync.Prelude.Steps.{◌>>=◌, or_wrap, bind_elim, or_wrap_elim}
use lbsync.Disk.{Disk, Os, at, close}
use lbsync.Disk.Keeps.{Keeps, close-Keeps}
use lbsync.AtomicFile.{Io, or_close}

module _ {A : Type 0} (Q : Result A × Disk → Type 0) where
  pub or_close_elim :
      (os : Os) (m : Io A) (d : Disk)
      → ((a : A) → (m d).0 ≡ ok a → Q (ok a, (m d).1))
      → ((e : Error) → (m d).0 ≡ err e → Q (err e, (close os (m d).1).1))
      → Q (or_close os m d)
  or_close_elim os m d fine failed =
      (elim (m d).0
          as (λ r.
            (m d).0 ≡ r
            → Q (elim r [ ok a ↦ (ok a, (m d).1) | err e ↦ (err e, (close os (m d).1).1) ])) [
              | ok a ↦ fine a
              | err e ↦ failed e
            ])
        refl

module _ {A B : Type 0} {q : Text} where
  pub Keeps-bind :
      (m : Io A) (f : A → Io B) → Keeps q m → ((a : A) → Keeps q (f a)) → Keeps q (m >>= f)
  Keeps-bind m f km kf = record {
    kept = λ d.
        bind_elim (λ r. at r.1 q ≡ at d q) m f d (λ a _. (kf a).kept (m d).1 ∙ km.kept d)
          (λ e _. km.kept d);
  }

module _ {A : Type 0} {q : Text} where
  pub Keeps-or_wrap : (what : Text) (m : Io A) → Keeps q m → Keeps q (or_wrap what m)
  Keeps-or_wrap what m km = record {
    kept =
        λ d. or_wrap_elim (λ r. at r.1 q ≡ at d q) what m d (λ a _. km.kept d) (λ e _. km.kept d);
  }

  pub Keeps-or_close : (os : Os) (m : Io A) → Keeps q m → Keeps q (or_close os m)
  Keeps-or_close os m km = record {
    kept = λ d.
        or_close_elim (λ r. at r.1 q ≡ at d q) os m d (λ a _. km.kept d)
          (λ e _. (close-Keeps os q).kept (m d).1 ∙ km.kept d);
  }
