-- ===== src/Main/Startup/Outcome.antt =====
-- Which modules `startModules` of cmd/lbsync/main.go starts and reports as enabled.
use mathlib.Core.List.{append-nil, append_assoc}
use lbsync.Prelude.{
  ◌≡◌, ◌∙◌, refl, sym, ap, Text, text, List, [], ◌∷◌, ◌++◌, map, Result, ok, err, Error, wrapped,
}
use lbsync.Prelude.Dict.{Dict}
use lbsync.Module.{Module, Factory}
use lbsync.Main.Startup.{Config, Started, modules_of, start_all, start_chosen, start_modules}

module _ {S : Type 0} where
  abbrev pub name_of : Module S → Text
  name_of m = m.name

  -- The state after the modules were started one after the other.
  abbrev pub state_after : List (Module S) → S → S
  state_after [] s = s
  state_after (m ∷ ms) s = state_after ms (m.start s).1

  -- Each of them starts, in the state that those before it left.
  abbrev pub Start : List (Module S) → S → Type 0
  Start [] s = Unit {0}
  Start (m ∷ ms) s = ((m.start s).0 ≡ ok tt) × Start ms (m.start s).1

  -- Nothing is left to start, which is a success; or the next module does not start, and what it
  -- fails with is the result, behind the name of the module.
  abbrev pub EndsBefore : List (Module S) → S → Result (Unit {0}) × S → Type 0
  EndsBefore [] s (r, t) = (r ≡ ok tt) × (t ≡ s)
  EndsBefore (m ∷ ms) s (r, t) =
      (e : Error) × ((m.start s).0 ≡ err e)
      × (r ≡ err (wrapped (text "start module " ++ m.name) e))
      × (t ≡ (m.start s).1)

  -- The modules up to a point were started, in their order, and are reported as enabled; there the
  -- list ends, or a module did not start, and its error is returned.
  abbrev pub StartsUpTo : List (Module S) → Started S → Result (Unit {0}) × Started S → Type 0
  StartsUpTo ms s t =
      (before : List (Module S)) × (after : List (Module S)) × (ms ≡ before ++ after)
      × Start before s.state
      × (t.1.enabled ≡ s.enabled ++ map name_of before)
      × EndsBefore after (state_after before s.state) (t.0, t.1.state)

  unfoldable pub StartOutcome :
      Result (List (Module S)) → Started S → Result (Unit {0}) × Started S → Type 0
  StartOutcome (ok ms) s t = StartsUpTo ms s t
  StartOutcome (err e) s t = t ≡ (err e, s)

  -- After `m` was started.
  abbrev after_start : Module S → Started S → Started S
  after_start m s = record { state = (m.start s.state).1; enabled = s.enabled ++ (m.name ∷ []) }

  start_next :
      (m : Module S) (ms : List (Module S)) (s : Started S)
      → (m.start s.state).0 ≡ ok tt
      → StartsUpTo ms (after_start m s) (start_all ms (after_start m s))
      → StartsUpTo (m ∷ ms) s (start_all (m ∷ ms) s)
  unfolding start_all
  start_next m ms s h (before, after, split, started, enabled, ends) =
      rw (h, start_all)
        (
          m ∷ before,
          after,
          ap (λ (x : List (Module S)). m ∷ x) split,
          (h, started),
          enabled ∙ append_assoc s.enabled (m.name ∷ []) (map name_of before),
          ends,
        )

  start_fails :
      (m : Module S) (ms : List (Module S)) (s : Started S) (e : Error)
      → (m.start s.state).0 ≡ err e
      → StartsUpTo (m ∷ ms) s (start_all (m ∷ ms) s)
  unfolding start_all
  start_fails m ms s e h =
      rw (h, start_all) ([], m ∷ ms, refl, tt, sym (append-nil s.enabled), (e, h, refl, refl))

  start_one :
      (m : Module S) (ms : List (Module S)) (s : Started S) (r : Result (Unit {0}))
      → (m.start s.state).0 ≡ r
      → StartsUpTo ms (after_start m s) (start_all ms (after_start m s))
      → StartsUpTo (m ∷ ms) s (start_all (m ∷ ms) s)
  start_one m ms s (ok _) h rest = start_next m ms s h rest
  start_one m ms s (err e) h rest = start_fails m ms s e h

  start_all-StartsUpTo : (ms : List (Module S)) (s : Started S) → StartsUpTo ms s (start_all ms s)
  start_all-StartsUpTo [] s =
      unfold start_all in ([], [], refl, tt, sym (append-nil s.enabled), (refl, refl))
  start_all-StartsUpTo (m ∷ ms) s =
      start_one m ms s (m.start s.state).0 refl (start_all-StartsUpTo ms (after_start m s))

  start_chosen-Outcome :
      (chosen : Result (List (Module S))) (s : Started S)
      → StartOutcome chosen s (start_chosen chosen s)
  unfolding start_chosen StartOutcome
  start_chosen-Outcome (ok ms) s = start_all-StartsUpTo ms s
  start_chosen-Outcome (err e) s = refl

  -- If the modules cannot be chosen or built, nothing is started and that error is returned. Else
  -- they are started in their order up to the first that fails, or to the end. If one fails, the
  -- error that is returned is its own, behind its name; else success is returned. Those that were
  -- started are reported as enabled, and no other.
  pub start_modules-Outcome :
      (registry : Dict (Factory S)) (cfg : Config) (s : Started S)
      → StartOutcome (modules_of registry cfg) s (start_modules registry cfg s)
  unfolding start_modules
  start_modules-Outcome registry cfg s = start_chosen-Outcome (modules_of registry cfg) s
