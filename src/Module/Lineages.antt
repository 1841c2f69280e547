-- ===== src/Module/Lineages.antt =====
-- The module of internal/modules/certs/certs.go in the registry: its factory and its `Start`.
use lbsync.Prelude.{text, Bool, ok}
use lbsync.Engine.{Engine}
use lbsync.Engine
use lbsync.Hook.{Machine}
use lbsync.Certs
use lbsync.Certs.{Env, start, provider}
use lbsync.Module.{Module, Config, Factory}

-- The part of the configuration that Start reads.
abbrev pub certs_config : Config → Certs.Config
certs_config cfg = record {
  letsencrypt_path = cfg.letsencrypt_path;
  serving_dir = cfg.serving_dir;
  verify_cmd = cfg.verify_cmd;
  reload_cmd = cfg.reload_cmd;
  reload_timeout = cfg.reload_timeout;
  hostname = cfg.hostname;
}

module _ {C : Type 0} (v : Env) (has_metrics : Bool) where
  -- Module, with its Name and Start: the provider is registered with the engine.
  unfoldable pub certs_module : Config → Module (Engine Machine C)
  certs_module cfg = record {
    name = text "certs";
    start = λ e. (ok tt, Engine.register e (provider v (start has_metrics (certs_config cfg))));
  }

  -- The factory that init registers.
  unfoldable pub certs_factory : Factory (Engine Machine C)
  certs_factory cfg = ok (certs_module cfg)
