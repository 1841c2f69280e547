-- ===== src/Module/Blobs.antt =====
-- The module of internal/modules/blob/blob.go in the registry: its factory and its `Start`.
use lbsync.Prelude.{Text, text, Bool, List, ok}
use lbsync.Engine.{Engine}
use lbsync.Engine
use lbsync.Blob.{BlobResource, BlobState, Env, start, provider}
use lbsync.Module.{Module, Factory}

module _ {C : Type 0} (v : Env) (has_metrics : Bool) where
  -- Module, with its Name and Start: the provider is registered with the engine.
  unfoldable pub blob_module : List BlobResource → Text → Module (Engine BlobState C)
  blob_module resources host = record {
    name = text "blob";
    start = λ e. (ok tt, Engine.register e (provider v (start has_metrics resources host)));
  }

  -- The factory that init registers.
  unfoldable pub blob_factory : Factory (Engine BlobState C)
  blob_factory cfg = ok (blob_module cfg.blob_resources cfg.hostname)
