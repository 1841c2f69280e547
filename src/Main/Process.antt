-- ===== src/Main/Process.antt =====
-- `run` of cmd/lbsync/main.go from its arguments to its end, as what it does in its order.
--
-- The engine and the HTTP server run in goroutines of their own until a signal comes. The log, and an
-- error of the shutdown, which is logged only, are not kept.
pub mod Lifecycle
use lbsync.Prelude.{
  ℤ, Text, text, same, List, [], ◌∷◌, ◌++◌, Result, ok, err, wrapped, if◌then◌else◌,
}
use lbsync.Prelude.Dict.{Dict}
use lbsync.Module.{Factory}
use lbsync.Main.Load.{Config, Readers, run_config, startup_config, load_config}
use lbsync.Main.Startup.{Started, start_modules}
use lbsync.Main.Run.{Chosen, World, default_hostname, start_cluster}

-- What run does. Modules are listed by the labels that were reported to ModuleEnabled.
pub data Effect (O C P : Type 0) : Type 0 where
  cluster_started : Chosen O C P → Effect O C P
  modules_started : List Text → Effect O C P
  engine_running : Effect O C P
  http_listening : ℤ → Effect O C P
  signalled : Effect O C P
  engine_cancelled : Effect O C P
  http_shut : Effect O C P
  cluster_closed : Chosen O C P → Effect O C P

-- What run is given: `environment` is what envconfig makes of the environment, and `dependencies` the
-- Deps of the modules, with the engine that engine.New makes of the cluster and the interval.
pub record Outside (O K C P S : Type 0) : Type 0 where
  pub world : World O K C P
  pub readers : Readers
  pub environment : Result Config
  pub registry : Dict (Factory S)
  pub dependencies : Chosen O C P → ℤ → S

module _ {O K C P S : Type 0} (o : Outside O K C P S) where
  -- cfg.Hostname, if it is not set
  abbrev pub with_hostname : Config → Config
  with_hostname c = record c {
    hostname = if same c.hostname [] then default_hostname o.world.os_hostname else c.hostname;
  }

  -- What stands between the start of the cluster and its close: run returns if the modules do not
  -- start, and else starts the engine and the server, waits for a signal, and ends both.
  unfoldable pub while_open :
      Config → Result (Unit {0}) × Started S → Result (Unit {0}) × List (Effect O C P)
  while_open c (err e, started) = (err e, modules_started started.enabled ∷ [])
  while_open c (ok _, started) = (
    ok tt,
    modules_started started.enabled
        ∷ engine_running
        ∷ http_listening c.port
        ∷ signalled
        ∷ engine_cancelled
        ∷ http_shut
        ∷ [],
  )

  -- The start of the modules, with the close of the cluster that is deferred.
  unfoldable pub with_cluster : Config → Chosen O C P → Result (Unit {0}) × List (Effect O C P)
  with_cluster c cl =
      let (res, during) = while_open c (
        start_modules o.registry (startup_config c)
          (record { state = o.dependencies cl c.reconcile_interval; enabled = [] })) in
      (res, cluster_started cl ∷ (during ++ (cluster_closed cl ∷ [])))

  unfoldable pub with_config : Config → Result (Unit {0}) × List (Effect O C P)
  with_config c = elim (start_cluster o.world (run_config c)) [
    | err e ↦ (err e, [])
    | ok cl ↦ with_cluster c cl
  ]

  -- run
  unfoldable pub run : List Text → Result (Unit {0}) × List (Effect O C P)
  run args = elim (load_config o.readers o.environment args) [
    | err e ↦ (err (wrapped (text "config") e), [])
    | ok c ↦ with_config (with_hostname c)
  ]
