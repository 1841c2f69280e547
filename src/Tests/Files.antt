-- ===== src/Tests/Files.antt =====
-- The file and hook theorems on one file.
use lbsync.Prelude.{ok, false, true, ◌≡◌, refl, text, same, some, [], ◌∷◌, message, pos}
use lbsync.Prelude.Dict.{lookup, insert, erase}
use lbsync.Disk.{
  at, Disk, read_file, stat, write, write_file, create_temp, chmod, close, rename, remove,
}
use lbsync.AtomicFile.{
  copy_file, write_temp, set_bits, close_and_rename, fill_and_rename, then_remove, replace_file,
  write_atomic, bring_back, restore,
}
use lbsync.AtomicFile.Write.{Reports, write_atomic-Reports}
use lbsync.AtomicFile.Backup.{Holds}
use lbsync.AtomicFile.Restore.{restore-write_atomic}
use lbsync.AtomicFile.Created.{write_atomic-created}
use lbsync.AtomicFile.Success.{faultless, write_atomic-succeeds}
use lbsync.Hook.{Runner, Machine, run}
use lbsync.Hook.Order.{RunOutcome, run-RunOutcome}
use lbsync.Tests.Fixtures.{calm, failing_at, drawn, old_file, new_file, one_file}

-- The write fails at the rename.
write_atomic-Reports_example :
    let r = write_atomic (failing_at 6) (text "/a") (text "new") 384 one_file in
    Reports r.0 (at one_file (text "/a")) new_file (at r.1 (text "/a"))
write_atomic-Reports_example =
    write_atomic-Reports (failing_at 6) (text "/a") (text "new") 384 (drawn (text "/a")) one_file

restore-write_atomic_example :
    Holds
      (at
        (restore calm (text "/a") (write_atomic calm (text "/a") (text "new") 384 one_file).1).1
        (text "/a"))
      (text "old")
unfolding same lookup insert erase read_file stat write write_file create_temp chmod close rename
    remove copy_file write_temp set_bits close_and_rename fill_and_rename then_remove replace_file
    write_atomic bring_back restore
restore-write_atomic_example =
    restore-write_atomic calm (text "/a") (text "new") 384 one_file old_file (λ n. refl) refl refl
      refl refl

abbrev runner : Runner
runner = record {
  kind = text "blob";
  verify = text "check" ∷ [];
  reload = text "reload" ∷ [];
  timeout = pos 0;
  has_metrics = true;
}

abbrev machine : Machine
machine = record { disk = one_file; ran = []; reports = [] }

-- The verify command fails.
run-RunOutcome_example :
    let m = run (λ n args ttl. some (message (text "exit status 1"))) runner machine in
    RunOutcome (λ n args ttl. some (message (text "exit status 1"))) runner machine m.0 m.1.ran
run-RunOutcome_example =
    run-RunOutcome (λ n args ttl. some (message (text "exit status 1"))) runner machine

abbrev no_file : Disk
no_file = record { files = []; calls = 0 }

write_atomic-created_example :
    let d =
      (restore calm (text "/a") (write_atomic calm (text "/a") (text "new") 384 no_file).1).1 in
    (at d (text "/a") ≡ some new_file)
    × ((write_atomic calm (text "/a") (text "new") 384 d).0 ≡ ok false)
unfolding same lookup insert erase read_file stat write create_temp chmod close rename remove
    write_temp set_bits close_and_rename fill_and_rename then_remove replace_file write_atomic
    bring_back restore
write_atomic-created_example =
    write_atomic-created calm (text "/a") (text "new") 384 no_file (drawn (text "/a")) (λ n. refl)
      refl refl refl refl refl

write_atomic-succeeds_example :
    (write_atomic (faultless (failing_at 2)) (text "/a") (text "new") 384 one_file).0 ≡ ok true
unfolding same lookup
write_atomic-succeeds_example =
    write_atomic-succeeds (failing_at 2) (text "/a") (text "new") 384 one_file
