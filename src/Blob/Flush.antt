-- ===== src/Blob/Flush.antt =====
-- `Flush` of internal/modules/blob/blob.go: which hooks run, and which error is returned.
use lbsync.Prelude.{
  ◌≡◌, ◌∙◌, ◌⊎◌, inl, inr, refl, sym, Text, Option, none, some, List, [], ◌∷◌, Result, ok, err,
  Error,
}
use lbsync.Prelude.Dict.{lookup, keys}
use lbsync.Hook.{Machine}
use lbsync.Hook
use lbsync.Blob.{Env, Blobs, BlobState, Resource, first_error, as_result, run_hooks, flush}

module _ (v : Env) (p : Blobs) where
  -- The hook of a resource.
  abbrev hook : Resource → Machine → Result (Unit {0}) × Machine
  hook res m = Hook.run v.commands res.runner m

  -- The names that are configured here, with the end of the hook of each, run one after the other,
  -- whatever the ends of those before it.
  pub data Runs : List Text → Machine → List (Result (Unit {0})) → Machine → Type 0 where
    nil : {m : Machine} → Runs [] m [] m
    skipped :
        {name : Text} {names : List Text} {m m' : Machine} {ends : List (Result (Unit {0}))}
        → lookup p.by_name name ≡ none
        → Runs names m ends m'
        → Runs (name ∷ names) m ends m'
    hooked :
        {name : Text} {names : List Text} {m m' : Machine} {ends : List (Result (Unit {0}))}
        (res : Resource)
        → lookup p.by_name name ≡ some res
        → Runs names (hook res m).1 ends m'
        → Runs (name ∷ names) m ((hook res m).0 ∷ ends) m'

  -- The first error among the ends.
  abbrev pub first_of : List (Result (Unit {0})) → Option Error
  first_of [] = none
  first_of (err e ∷ ends) = some e
  first_of (ok _ ∷ ends) = first_of ends

  abbrev or_else : Option Error → Option Error → Option Error
  or_else none o = o
  or_else (some e) o = some e

  first_error-then :
      (first : Option Error) (r : Result (Unit {0})) (ends : List (Result (Unit {0})))
      → or_else (first_error first r) (first_of ends) ≡ or_else first (first_of (r ∷ ends))
  first_error-then none (ok u) ends = refl
  first_error-then none (err e) ends = refl
  first_error-then (some x) (ok u) ends = refl
  first_error-then (some x) (err e) ends = refl

  -- What the loop gives.
  abbrev RunsTo : List Text → Option Error → Machine → Option Error × Machine → Type 0
  RunsTo names first m (found, m') =
      (ends : List (Result (Unit {0}))) × Runs names m ends m'
      × (found ≡ or_else first (first_of ends))

  or_else-none : (o : Option Error) → o ≡ or_else o none
  or_else-none none = refl
  or_else-none (some e) = refl

  run_hooks-RunsTo :
      (names : List Text) (first : Option Error) (m : Machine)
      → RunsTo names first m (run_hooks v p names first m)
  unfolding run_hooks
  run_hooks-RunsTo [] first m = ([], nil, or_else-none first)
  run_hooks-RunsTo (name ∷ names) first m =
      by_name (lookup p.by_name name) refl (run_hooks-RunsTo names)
    where
      by_name :
          (o : Option Resource)
          → lookup p.by_name name ≡ o
          → ((found : Option Error) (m' : Machine)
              → RunsTo names found m' (run_hooks v p names found m'))
          → RunsTo (name ∷ names) first m (run_hooks v p (name ∷ names) first m)
      by_name none h rest =
          unfold run_hooks in
          let (ends, runs, found) = rest first m in rw (h, run_hooks) (ends, skipped h runs, found)
      by_name (some res) h rest =
          unfold run_hooks in
          let (ends, runs, found) = rest (first_error first (hook res m).0) (hook res m).1 in
          rw (h, run_hooks)
            (
              (hook res m).0 ∷ ends,
              hooked res h runs,
              found ∙ first_error-then first (hook res m).0 ends,
            )

  -- No hook failed, and none is pending any more, or the first error is returned and all stay pending.
  abbrev pub Verdict : BlobState → List (Result (Unit {0})) → Result (Unit {0}) → BlobState → Type 0
  Verdict s ends r t =
      ((first_of ends ≡ none) × (r ≡ ok tt) × (t.pending ≡ []))
      ⊎ ((e : Error) × (first_of ends ≡ some e) × (r ≡ err e) × (t.pending ≡ s.pending))

  verdict :
      (s : BlobState) (ends : List (Result (Unit {0}))) (found : Option Error) (m : Machine)
      → found ≡ first_of ends
      → Verdict s ends
          (as_result found)
          (record { machine = m; pending = elim found [ none ↦ [] | some _ ↦ s.pending ] })
  verdict s ends none m h = inl (sym h, refl, refl)
  verdict s ends (some e) m h = inr (e, sym h, refl, refl)

  -- The hooks of all resources that are pending are run, in the order of the range and also after one
  -- has failed. If none fails, none is pending any more; else the first error is returned, and all of
  -- them stay pending, those that were run without an error included.
  pub flush-Runs :
      (s : BlobState)
      → let (r, t) = flush v p s in
        (ends : List (Result (Unit {0}))) × Runs
          (v.range_order (keys s.pending))
          s.machine
          ends
          t.machine
        × Verdict s ends r t
  unfolding flush
  flush-Runs s =
      let names = v.range_order (keys s.pending) in
      let (ends, runs, found) = run_hooks-RunsTo names none s.machine in
      (ends, runs, verdict s ends _ (run_hooks v p names none s.machine).1 found)
