-- ===== src/Hook/Order.antt =====
-- The order of the two commands of internal/hook/hook.go.
use mathlib.Core.List.{append-nil, append_assoc}
use lbsync.Prelude.{
  ◌≡◌, ◌≢◌, ◌⊎◌, inl, inr, refl, sym, ◌∙◌, ap, Text, text, Bool-cases, Option, none, some, List, [],
  ◌∷◌, ◌++◌, length, Result, ok, err, Error, wrapped,
}
use lbsync.Engine.{seconds, or_default}
use lbsync.Hook.{
  Machine, Commands, Runner, Report, verify_errors, reload_errors, exec, bump, run_command, run,
}

-- The command, if it is set.
abbrev pub if_set : List Text → List (List Text)
if_set [] = []
if_set (arg ∷ args) = (arg ∷ args) ∷ []

module _ (commands : Commands) where
  -- How the command ends if it is run on `m`.
  abbrev pub ending : Runner → List Text → Machine → Option Error
  ending r args m = commands (length m.ran) args (or_default r.timeout (seconds 30))

  -- The command is not set, or it ends without an error.
  abbrev pub PassesOn : Runner → List Text → Machine → Type 0
  PassesOn r args m = (args ≡ []) ⊎ (ending r args m ≡ none)

  -- The command is set and ends with an error, which `e` tells behind the message.
  abbrev pub FailsOn : Runner → List Text → Text → Error → Machine → Type 0
  FailsOn r args message_ e m =
      (args ≢ [])
      × (x : Error) × (ending r args m ≡ some x)
      × (e ≡ wrapped message_ (wrapped (text "exec") x))

  -- The machine on which the reload command is run.
  abbrev pub after_verify : Runner → Machine → Machine
  after_verify r m = record m { ran = m.ran ++ if_set r.verify }

  -- What `run` did: it succeeded, and both commands, as far as they are set, were run and passed; or
  -- the verify command failed and nothing else was run; or the verify command passed and the reload
  -- command failed.
  abbrev pub RunOutcome : Runner → Machine → Result (Unit {0}) → List (List Text) → Type 0
  RunOutcome r m (ok _) ran =
      (ran ≡ m.ran ++ (if_set r.verify ++ if_set r.reload))
      × PassesOn r r.verify m
      × PassesOn r r.reload (after_verify r m)
  RunOutcome r m (err e) ran =
      ((ran ≡ m.ran ++ if_set r.verify) × FailsOn r r.verify (text "verify failed") e m)
      ⊎ ((ran ≡ m.ran ++ (if_set r.verify ++ if_set r.reload))
          × PassesOn r r.verify m
          × FailsOn r r.reload (text "reload failed") e (after_verify r m))

  -- One command: it is run if it is set, and its failure is the result's.
  abbrev CommandOutcome :
      Runner → List Text → Text → Machine → Result (Unit {0}) → List (List Text) → Type 0
  CommandOutcome r args message_ m (ok _) ran = (ran ≡ m.ran ++ if_set args) × PassesOn r args m
  CommandOutcome r args message_ m (err e) ran =
      (ran ≡ m.ran ++ if_set args) × FailsOn r args message_ e m

  ran-bump : (r : Runner) (what : Report) (m : Machine) → (bump commands r what m).ran ≡ m.ran
  unfolding bump
  ran-bump r what m = elim (Bool-cases r.has_metrics) [ inl h ↦ rw h | inr h ↦ rw h ]

  run_command_ends :
      (r : Runner) (arg : Text) (args : List Text) (what : Report) (message_ : Text) (m : Machine)
      (end : Option Error)
      → ending r (arg ∷ args) m ≡ end
      → let t = run_command commands r (arg ∷ args) what message_ m in
        CommandOutcome r (arg ∷ args) message_ m t.0 t.1.ran
  unfolding run_command exec
  run_command_ends r arg args what message_ m none h = rw (h, run_command, exec) (refl, inr h)
  run_command_ends r arg args what message_ m (some e) h =
      rw (h, run_command, exec, ran-bump) (refl, ((λ k. cc), e, h, refl))

  run_command-Outcome :
      (r : Runner) (args : List Text) (what : Report) (message_ : Text) (m : Machine)
      → let t = run_command commands r args what message_ m in
        CommandOutcome r args message_ m t.0 t.1.ran
  unfolding run_command
  run_command-Outcome r [] what message_ m = (sym (append-nil m.ran), inl refl)
  run_command-Outcome r (arg ∷ args) what message_ m =
      run_command_ends r arg args what message_ m _ refl

  -- The second command on a machine that ran as much as another.
  ending_on :
      (r : Runner) (args : List Text) (m m' : Machine)
      → m'.ran ≡ m.ran
      → ending r args m' ≡ ending r args m
  ending_on r args m m' e =
      ap (λ (x : List (List Text)). commands (length x) args (or_default r.timeout (seconds 30))) e

  run_reloads :
      (r : Runner) (m m' : Machine) (res : Result (Unit {0})) (ran : List (List Text))
      → m'.ran ≡ m.ran ++ if_set r.verify
      → PassesOn r r.verify m
      → CommandOutcome r r.reload (text "reload failed") m' res ran
      → RunOutcome r m res ran
  run_reloads r m m' (ok _) ran e passed (h, end) = (
    h ∙ ap (λ x. x ++ if_set r.reload) e ∙ append_assoc m.ran (if_set r.verify) (if_set r.reload),
    passed,
    elim end [
      | inl none_set ↦ inl none_set
      | inr k ↦ inr (sym (ending_on r r.reload (after_verify r m) m' e) ∙ k)
    ],
  )
  run_reloads r m m' (err x) ran e passed (h, (set, why, fails, told)) = inr (
    h ∙ ap (λ x. x ++ if_set r.reload) e ∙ append_assoc m.ran (if_set r.verify) (if_set r.reload),
    passed,
    (set, why, sym (ending_on r r.reload (after_verify r m) m' e) ∙ fails, told),
  )

  run_verified :
      (r : Runner) (m : Machine) (res : Result (Unit {0}))
      → (run_command commands r r.verify (verify_errors r.kind) (text "verify failed") m).0 ≡ res
      → CommandOutcome r r.verify
          (text "verify failed")
          m
          res
          (run_command commands r r.verify (verify_errors r.kind) (text "verify failed") m).1.ran
      → RunOutcome r m (run commands r m).0 (run commands r m).1.ran
  unfolding run
  run_verified r m (ok _) h (verified, passed) =
      let m' =
        (run_command commands r r.verify (verify_errors r.kind) (text "verify failed") m).1 in
      rw (h, run)
        (run_reloads r m m' _ _ verified passed
          (run_command-Outcome r r.reload (reload_errors r.kind) (text "reload failed") m'))
  run_verified r m (err e) h failed = rw (h, run) (inl failed)

  -- The hook runs the verify command and then the reload command, each if it is set. If it succeeds,
  -- both were run, as far as they are set, and ended without an error. If it fails, either the verify
  -- command ended with an error and no reload command was run, or the verify command passed and the
  -- reload command ended with an error; the error that is returned tells which of them it was and
  -- wraps its error.
  pub run-RunOutcome :
      (r : Runner) (m : Machine) → RunOutcome r m (run commands r m).0 (run commands r m).1.ran
  run-RunOutcome r m =
      run_verified r m _ refl
        (run_command-Outcome r r.verify (verify_errors r.kind) (text "verify failed") m)
