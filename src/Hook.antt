-- ===== src/Hook.antt =====
-- internal/hook/hook.go: the verify command and then the reload command.
--
-- A node's machine is its files, the commands that were run on it, and what was reported to the
-- metrics. How a command ends is given from outside.
pub mod Order
use lbsync.Prelude.{
  ℕ, ℤ, Text, text, Bool, Option, none, some, List, [], ◌∷◌, ◌++◌, length, Result, ok, err, Error,
  wrapped, if◌then◌else◌,
}
use lbsync.Disk.{Disk}
use lbsync.Engine.{seconds, or_default}

-- VerifyErrors, ReloadErrors and NotAfter of internal/metrics, with their labels.
pub data Report : Type 0 where
  verify_errors : Text → Report
  reload_errors : Text → Report
  not_after : Text → Text → ℤ → Report

pub record Machine : Type 0 where
  pub disk : Disk
  pub ran : List (List Text)
  pub reports : List Report

-- How the n-th command ends, with its arguments and its timeout in nanoseconds: the error of
-- `CombinedOutput`, if it gives one.
abbrev pub Commands : Type 0
Commands = ℕ → List Text → ℤ → Option Error

pub record Runner : Type 0 where
  pub kind : Text
  pub verify : List Text
  pub reload : List Text
  pub timeout : ℤ
  pub has_metrics : Bool

module _ (commands : Commands) where
  -- r.exec
  unfoldable pub exec : Runner → List Text → Machine → Result (Unit {0}) × Machine
  exec r args m = (
    elim (commands (length m.ran) args (or_default r.timeout (seconds 30))) [
      | none ↦ ok tt
      | some e ↦ err (wrapped (text "exec") e)
    ],
    record m { ran = m.ran ++ (args ∷ []) },
  )

  -- r.bump: nothing if there are no metrics.
  unfoldable pub bump : Runner → Report → Machine → Machine
  bump r what m = if r.has_metrics then record m { reports = m.reports ++ (what ∷ []) } else m

  -- One of the two commands, if it is set, with the report and the message for its failure.
  unfoldable pub run_command :
      Runner → List Text → Report → Text → Machine → Result (Unit {0}) × Machine
  run_command r [] what message_ m = (ok tt, m)
  run_command r (arg ∷ args) what message_ m =
      let (res, m') = exec r (arg ∷ args) m in
      elim res [ ok _ ↦ (ok tt, m') | err e ↦ (err (wrapped message_ e), bump r what m') ]

  -- r.Run
  unfoldable pub run : Runner → Machine → Result (Unit {0}) × Machine
  run r m =
      let (verified, m') = run_command r r.verify (verify_errors r.kind) (text "verify failed") m in
      elim verified [
        | err e ↦ (err e, m')
        | ok _ ↦ run_command r r.reload (reload_errors r.kind) (text "reload failed") m'
      ]
