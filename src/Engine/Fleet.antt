-- ===== src/Engine/Fleet.antt =====
-- Many nodes with the engine of internal/engine/engine.go over one cluster.
use lbsync.Prelude.{ℕ, ◌==◌, Text, Option, List, [], ◌∷◌, All, if◌then◌else◌}
use lbsync.Engine.{Record, Engine, St}
use lbsync.Engine.Store.Advance.{Advances}
use lbsync.Engine.Store.Guarded.{IsForward}
use lbsync.Engine.Publish.Guarded.{Moves-refl, Moves-trans}
use lbsync.Engine.Tick.{run}
use lbsync.Engine.Tick.Advance.{GivesPlain, run-Advances}

-- The nodes, each with its own state, clock and reports, and the cluster that they share.
pub record Fleet (P C : Type 0) : Type 0 where
  pub nodes : ℕ → St P C
  pub shared : C

module _ {P C : Type 0} (engines : ℕ → Engine P C) where
  -- Node `i` runs for so many ticks.
  abbrev pub after_run : ℕ → ℕ → Fleet P C → St P C
  after_run i ticks f = run (engines i) ticks (record (f.nodes i) { cluster = f.shared })

  -- The nodes run in this order, each for so many ticks.
  unfoldable pub in_order : List (ℕ × ℕ) → Fleet P C → Fleet P C
  in_order [] f = f
  in_order ((i, ticks) ∷ more) f =
      let s = after_run i ticks f in
      in_order more (record { nodes = λ j. if i == j then s else f.nodes j; shared = s.cluster })

module _ {P C : Type 0} (engines : ℕ → Engine P C) (view : C → Text → Text → Option Record)
    (Valid : C → Type 0) (Plain : Text → Text → Type 0)
    (laws : (i : ℕ) → IsForward (engines i).cluster view Valid Plain) where
  -- In whatever order the nodes of a fleet run, for however many ticks each, and whichever of their locks
  -- and writes fail, over a cluster whose Get never answers with less than what is held at a plain
  -- place, with providers that give records of their own kind at plain places only: the cluster stays
  -- valid, and no record that it held at a plain place is lost or replaced by an older one.
  pub in_order-Advances :
      (schedule : List (ℕ × ℕ)) (f : Fleet P C)
      → Valid f.shared
      → ((i : ℕ) → All (GivesPlain Plain) (engines i).providers)
      → Valid (in_order engines schedule f).shared
        × ((k j : Text)
            → Plain k j
            → Advances (view f.shared k j) (view (in_order engines schedule f).shared k j))
  unfolding in_order
  in_order-Advances [] f valid gives = Moves-refl view Valid Plain f.shared valid
  in_order-Advances ((i, ticks) ∷ more) f valid gives =
      let first =
        run-Advances (engines i) view Valid Plain (laws i) ticks
          (record (f.nodes i) { cluster = f.shared }) valid (gives i) in
      Moves-trans view Valid Plain f.shared (after_run engines i ticks f).cluster _ first
        (in_order-Advances more _ first.0 gives)
