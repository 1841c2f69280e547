-- ===== src/Bundle/Serve.antt =====
-- `WriteAtomic` of internal/bundle/bundle.go: what it leaves in the directory of a lineage, whichever
-- of its calls fail.
use mathlib.Core.List.{append_assoc}
use lbsync.Prelude.{
  same-append_left, ℕ, ◌≡◌, ◌∙◌, refl, Text, text, same, false, ◌++◌, List, [], ◌∷◌, All, inl,
}
use lbsync.Prelude.Steps.{or_wrap, bind_elim}
use lbsync.Paths.{has, join, within}
use lbsync.Paths.Plain.{IsPlain, join-plain}
use lbsync.Disk.{Disk, Os, at, mkdir_all}
use lbsync.Disk.Keeps.{Keeps, attempt_elim}
use lbsync.AtomicFile.Rules.{Keeps-or_wrap}
use lbsync.Bundle.Files.{Bundle, Part, parts_of, write_parts, write_bundle}
use lbsync.Bundle.Parts.{
  PartEnds, path_of, Apart, AllApart, All-map, All-both, All-every, write_parts-Ends, Ends,
}

-- The name of a file that is served: one element of a path that does not begin with a dot.
record IsServed (name : Text) : Type 0 where
  plain : IsPlain name
  visible : (rest : Text) → same (text ".tmp-" ++ rest) name ≡ false

-- Neither name is the other, with or without the ending of a backup.
abbrev Unlike : Text → Text → Type 0
Unlike p q =
    ((same p q ≡ false) × (same (p ++ text ".bak") q ≡ false))
    × ((same q p ≡ false) × (same (q ++ text ".bak") p ≡ false))

unfoldable AllUnlike : List Part → Type 0
AllUnlike [] = Unit {0}
AllUnlike (p ∷ ps) = All (λ q. Unlike p.name q.name) ps × AllUnlike ps

-- os.CreateTemp(dir, ".tmp-*"), for a file that stands in the directory.
abbrev pub DrawsIn : Os → Text → Type 0
DrawsIn os dir =
    (n : ℕ) (p : Text)
    → IsPlain p
    → (rest : Text) × (os.temp n (join (dir ∷ p ∷ [])) ≡ within dir ++ (text ".tmp-" ++ rest))

served :
    {name : Text}
    → same name [] ≡ false
    → same name (text ".") ≡ false
    → same name (text "..") ≡ false
    → has b'/' name ≡ false
    → ((rest : Text) → same (text ".tmp-" ++ rest) name ≡ false)
    → IsServed name
served e d u s v = record {
  plain = record { nonempty = e; not_dot = d; not_up = u; no_slash = s };
  visible = v;
}

parts-IsServed : (b : Bundle) → All (λ (p : Part). IsServed p.name) (parts_of b)
unfolding parts_of same has
parts-IsServed b = (
  served refl refl refl refl (λ r. refl),
  (
    served refl refl refl refl (λ r. refl),
    (served refl refl refl refl (λ r. refl), (served refl refl refl refl (λ r. refl), tt)),
  ),
)

parts-AllUnlike : (b : Bundle) → AllUnlike (parts_of b)
unfolding AllUnlike parts_of same
parts-AllUnlike b = (
  (
    ((refl, refl), (refl, refl)),
    (((refl, refl), (refl, refl)), (((refl, refl), (refl, refl)), tt)),
  ),
  (
    (((refl, refl), (refl, refl)), (((refl, refl), (refl, refl)), tt)),
    ((((refl, refl), (refl, refl)), tt), (tt, tt)),
  ),
)

module _ (os : Os) (dir : Text) (drawn : DrawsIn os dir) where
  temp-ne :
      (n : ℕ) (p q : Text)
      → IsServed p
      → IsServed q
      → same (os.temp n (join (dir ∷ p ∷ []))) (join (dir ∷ q ∷ [])) ≡ false
  temp-ne n p q hp hq =
      let (rest, e) = drawn n p hp.plain in
      rw (e, join-plain dir q hq.plain)
        (same-append_left (within dir) (text ".tmp-" ++ rest) q ∙ hq.visible rest)

  names-Apart :
      (p q : Text)
      → IsServed p
      → IsServed q
      → same p q ≡ false
      → same (p ++ text ".bak") q ≡ false
      → Apart os (join (dir ∷ p ∷ [])) (join (dir ∷ q ∷ []))
  names-Apart p q hp hq ne nb = (
    rw (join-plain dir p hp.plain, join-plain dir q hq.plain)
        (same-append_left (within dir) p q ∙ ne),
    rw
        (
          join-plain dir p hp.plain,
          join-plain dir q hq.plain,
          append_assoc (within dir) p (text ".bak"),
        )
        (same-append_left (within dir) (p ++ text ".bak") q ∙ nb),
    λ n. temp-ne n p q hp hq,
  )

  all_apart :
      (ps : List Part) → All (λ (p : Part). IsServed p.name) ps → AllUnlike ps → AllApart os dir ps
  unfolding AllApart AllUnlike
  all_apart [] served un = tt
  all_apart (p ∷ ps) served un = (
    λ n. temp-ne n p.name p.name served.0 served.0,
    All-both ps
        (λ q hq u. (
          names-Apart p.name q.name served.0 hq u.0.0 u.0.1,
          names-Apart q.name p.name hq served.0 u.1.0 u.1.1,
        ))
        served.1 un.0,
    all_apart ps served.1 un.1,
  )

  mkdir_all-Keeps : (q : Text) → Keeps q (mkdir_all os)
  unfolding mkdir_all
  mkdir_all-Keeps q = record {
    kept = λ d. attempt_elim os (λ r. at r.1 q ≡ at d q) d _ _ (λ e. refl) refl;
  }

  -- Whichever calls fail in WriteAtomic of a bundle: each of its files is afterwards what it was or
  -- the whole new one, with its bits. If no error is reported, each file that is not empty has its new
  -- content, and if `false` is, each is what it was. Names of temporary files begin with ".tmp-".
  pub write_bundle-Ends :
      (b : Bundle) (d : Disk) → Ends os dir d (parts_of b) (write_bundle os b dir d)
  unfolding write_bundle
  write_bundle-Ends b d =
      let making = or_wrap (text "mkdir " ++ dir) (mkdir_all os) in
      let kept = λ (q : Text).
        (Keeps-or_wrap (text "mkdir " ++ dir) (mkdir_all os) (mkdir_all-Keeps q)).kept d in
      bind_elim (Ends os dir d (parts_of b)) making (λ u. write_parts os dir (parts_of b) false) d
        (λ u h.
          All-map (parts_of b) (λ q ends. rw (kept (path_of dir q)) at ends)
            (write_parts-Ends os dir (parts_of b) false (making d).1
              (all_apart (parts_of b) (parts-IsServed b) (parts-AllUnlike b))))
        (λ e h. All-every (parts_of b) (λ q. unfold PartEnds in inl (kept (path_of dir q))))
