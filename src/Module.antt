-- ===== src/Module.antt =====
-- internal/module/module.go: the registry of modules, and the placeholders of
-- internal/modules/stubs/stubs.go.
--
-- What the dependencies of a module hold is a state `S`. The registry is passed on.
pub mod Build
pub mod Blobs
pub mod Lineages
use lbsync.Prelude.{
  ℤ, Text, text, Bool, is_some, Option, none, some, List, [], ◌∷◌, ◌++◌, Result, ok, err, message,
  wrapped,
}
use lbsync.Prelude.Dict.{Dict, lookup, insert}
use lbsync.Blob.{BlobResource}

-- Module
pub record Module (S : Type 0) : Type 0 where
  pub name : Text
  pub start : S → Result (Unit {0}) × S

-- Config
pub record Config : Type 0 where
  pub letsencrypt_path : Text
  pub serving_dir : Text
  pub verify_cmd : List Text
  pub reload_cmd : List Text
  pub reload_timeout : ℤ
  pub blob_resources : List BlobResource
  pub hostname : Text

-- Factory
abbrev pub Factory : Type 0 → Type 0
Factory S = Config → Result (Module S)

module _ {S : Type 0} where
  -- Register
  unfoldable pub register : Text → Factory S → Dict (Factory S) → Dict (Factory S)
  register name f registry = insert registry name f

  -- Registered
  unfoldable pub registered : Dict (Factory S) → Text → Bool
  registered registry name = is_some (lookup registry name)

  -- One round of the loop of Build: the module of a name.
  unfoldable pub build_one : Option (Factory S) → Text → Config → Result (Module S)
  build_one none name cfg = err (message (text "unknown module " ++ name))
  build_one (some f) name cfg = elim (f cfg) [
    | err e ↦ err (wrapped (text "build module " ++ name) e)
    | ok m ↦ ok m
  ]

  unfoldable pub onto_modules :
      Result (Module S) → Result (List (Module S)) → Result (List (Module S))
  onto_modules (err e) rest = err e
  onto_modules (ok m) (err e) = err e
  onto_modules (ok m) (ok ms) = ok (m ∷ ms)

  -- Build: the first error ends it.
  unfoldable pub build : Dict (Factory S) → List Text → Config → Result (List (Module S))
  build registry [] cfg = ok []
  build registry (name ∷ names) cfg =
      onto_modules (build_one (lookup registry name) name cfg) (build registry names cfg)

  -- stub, with its Name and Start. No log is kept if none is given.
  unfoldable pub stub : Option (Text → S → S) → Text → Text → Module S
  stub logf name intent = record {
    name = name;
    start = λ s. (
      ok tt,
      elim logf [
        | none ↦ s
        | some log ↦
            log
              (text "module "
                ++ (name ++ (text " is not implemented yet (planned: " ++ (intent ++ text ")"))))
              s
      ],
    );
  }

  -- The init of stubs.go, over the intents.
  unfoldable pub register_stubs :
      Option (Text → S → S) → Dict Text → Dict (Factory S) → Dict (Factory S)
  register_stubs logf [] registry = registry
  register_stubs logf ((name, intent) ∷ intents) registry =
      register_stubs logf intents (register name (λ cfg. ok (stub logf name intent)) registry)

-- intents
abbrev pub intents : Dict Text
intents =
    (
      text "acme-leader",
      text
          "elect a single node (cluster.Leader) to run certbot/ACME renewal; pairs with the certs module to avoid duplicate ACME orders",
    )
    ∷ (
      text "ratelimit",
      text
          "enforce fleet-wide rate limits using cluster.Counter (atomic Incr/Decr) plus an HTTP check endpoint",
    )
    ∷ (
      text "ocsp",
      text "fetch and share OCSP staples as a newest-wins engine.Provider (kind=ocsp)",
    )
    ∷ (
      text "pubsub",
      text "fan out cache purge / feature flags / maintenance toggles using cluster.Topic",
    )
    ∷ (text "health", text "share upstream health and membership via short-TTL cluster keys")
    ∷ []
