-- ===== src/Main/Process/Lifecycle.antt =====
-- How `run` of cmd/lbsync/main.go begins and ends.
use lbsync.Prelude.{◌≡◌, ◌⊎◌, text, List, [], ◌∷◌, Result, ok, err, Error, wrapped}
use lbsync.Main.Load.{Config, run_config, startup_config}
use lbsync.Main.Startup.{Started, start_modules}
use lbsync.Main.Run.{Chosen, start_cluster}
use lbsync.Main.Run.Access.{Access}
use lbsync.Main.Process.{
  Effect, cluster_started, modules_started, engine_running, http_listening, signalled,
  engine_cancelled, http_shut, cluster_closed, Outside, with_hostname,
}

module _ {O K C P S : Type 0} (o : Outside O K C P S) where
  -- What starting the modules of a configuration on a cluster comes to: the result, and the labels
  -- that are reported.
  abbrev pub modules_on : Config → Chosen O C P → Result (Unit {0}) × Started S
  modules_on c cl =
      start_modules o.registry (startup_config c)
        (record { state = o.dependencies cl c.reconcile_interval; enabled = [] })

  -- With the modules started, the engine runs and HTTP is served until a signal comes; then the
  -- engine is cancelled, the server shut and the cluster closed. Else the cluster is closed at once.
  abbrev pub Served : Config → Chosen O C P → Result (Unit {0}) → List (Effect O C P) → Type 0
  Served c cl (ok _) effects =
      effects
      ≡ cluster_started cl
        ∷ modules_started (modules_on c cl).1.enabled
        ∷ engine_running
        ∷ http_listening c.port
        ∷ signalled
        ∷ engine_cancelled
        ∷ http_shut
        ∷ cluster_closed cl
        ∷ []
  Served c cl (err _) effects =
      effects
      ≡ cluster_started cl ∷ modules_started (modules_on c cl).1.enabled ∷ cluster_closed cl ∷ []

  -- The cluster is not started, and that error is returned; or it is, and how its modules start is
  -- how it ends.
  abbrev pub Opened : Config → Result (Unit {0}) × List (Effect O C P) → Type 0
  Opened c (r, effects) =
      ((e : Error) × (start_cluster o.world (run_config c) ≡ err e) × (r ≡ err e) × (effects ≡ []))
      ⊎ ((cl : Chosen O C P) × (start_cluster o.world (run_config c) ≡ ok cl)
          × Access o.world (run_config c) cl
          × (r ≡ (modules_on c cl).0)
          × Served c cl r effects)

  -- The configuration cannot be loaded, and that error is returned, or it is and it is run.
  abbrev pub Lifecycle : Result Config → Result (Unit {0}) × List (Effect O C P) → Type 0
  Lifecycle (err e) (r, effects) = (r ≡ err (wrapped (text "config") e)) × (effects ≡ [])
  Lifecycle (ok c) t = Opened (with_hostname o c) t
