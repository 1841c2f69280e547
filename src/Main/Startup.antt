-- ===== src/Main/Startup.antt =====
-- `startModules` of cmd/lbsync/main.go, and the part of `config` that it reads.
--
-- What the dependencies of the modules hold is a state `S`; beside it stand the labels that were
-- reported to ModuleEnabled. The log is not kept.
pub mod Outcome
use lbsync.Prelude.{ℤ, Text, text, List, [], ◌∷◌, ◌++◌, Result, ok, err, wrapped}
use lbsync.Prelude.Dict.{Dict}
use lbsync.Blob.{BlobResource}
use lbsync.Module
use lbsync.Module.{Module, Factory, build}
use lbsync.Main.Strings.{fields}
use lbsync.Main.ParseList.{parse_list}
use lbsync.Main.Resources.{parse_blob_resources}

pub record Config : Type 0 where
  pub letsencrypt_path : Text
  pub serving_dir : Text
  pub blob_resources : Text
  pub modules : Text
  pub verify_cmd : Text
  pub reload_cmd : Text
  pub reload_timeout : ℤ
  pub hostname : Text

-- module.Config
unfoldable pub module_config : Config → List BlobResource → Module.Config
module_config cfg resources = record {
  letsencrypt_path = cfg.letsencrypt_path;
  serving_dir = cfg.serving_dir;
  verify_cmd = fields cfg.verify_cmd;
  reload_cmd = fields cfg.reload_cmd;
  reload_timeout = cfg.reload_timeout;
  blob_resources = resources;
  hostname = cfg.hostname;
}

pub record Started (S : Type 0) : Type 0 where
  pub state : S
  pub enabled : List Text

module _ {S : Type 0} where
  -- The modules, before any is started.
  unfoldable pub modules_of : Dict (Factory S) → Config → Result (List (Module S))
  modules_of registry cfg = elim (parse_blob_resources cfg.blob_resources) [
    | err e ↦ err (wrapped (text "blob resources") e)
    | ok resources ↦ elim (build registry (parse_list cfg.modules) (module_config cfg resources)) [
      | err e ↦ err (wrapped (text "modules") e)
      | ok ms ↦ ok ms
    ]
  ]

  -- The loop over the modules: the first error ends it.
  unfoldable pub start_all : List (Module S) → Started S → Result (Unit {0}) × Started S
  start_all [] s = (ok tt, s)
  start_all (m ∷ ms) s =
      let (res, state') = m.start s.state in
      elim res [
        | err e ↦ (err (wrapped (text "start module " ++ m.name) e), record s { state = state' })
        | ok _ ↦ start_all ms (record { state = state'; enabled = s.enabled ++ (m.name ∷ []) })
      ]

  unfoldable pub start_chosen : Result (List (Module S)) → Started S → Result (Unit {0}) × Started S
  start_chosen (err e) s = (err e, s)
  start_chosen (ok ms) s = start_all ms s

  -- startModules
  unfoldable pub start_modules :
      Dict (Factory S) → Config → Started S → Result (Unit {0}) × Started S
  start_modules registry cfg s = start_chosen (modules_of registry cfg) s
