-- ===== src/Tests/Start.antt =====
-- The theorems on the registry and the start of modules, with one module that starts and one that
-- does not exist.
use lbsync.Prelude.{pos, text, [], ◌∷◌, none}
use lbsync.Prelude.Dict.{Dict}
use lbsync.Module.{Factory, build, register_stubs, intents}
use lbsync.Module.Build.{BuildOutcome, build-Outcome}
use lbsync.Main.Startup.{Config, Started, module_config, modules_of, start_modules}
use lbsync.Main.Startup.Outcome.{StartOutcome, start_modules-Outcome}

abbrev stubs : Dict (Factory (Unit {0}))
stubs = register_stubs none intents []

abbrev config : Config
config = record {
  letsencrypt_path = text "/etc/letsencrypt";
  serving_dir = text "/etc/lbsync/live";
  blob_resources = [];
  modules = text "ocsp,pubsub";
  verify_cmd = [];
  reload_cmd = [];
  reload_timeout = pos 30;
  hostname = text "host";
}

abbrev fresh : Started (Unit {0})
fresh = record { state = tt; enabled = [] }

build-Outcome_example :
    BuildOutcome stubs
      (module_config config [])
      (text "ocsp" ∷ text "nope" ∷ [])
      (build stubs (text "ocsp" ∷ text "nope" ∷ []) (module_config config []))
build-Outcome_example =
    build-Outcome stubs (module_config config []) (text "ocsp" ∷ text "nope" ∷ [])

start_modules-Outcome_example :
    StartOutcome (modules_of stubs config) fresh (start_modules stubs config fresh)
start_modules-Outcome_example = start_modules-Outcome stubs config fresh
