-- ===== src/Engine/Race/Loss.antt =====
-- Publishing on two nodes (internal/engine/engine.go) that both go on without the lock.
use lbsync.Prelude.{◌≡◌, refl, ℕ, Bool, true, false, Option, some}
use lbsync.Version.{newer}
use lbsync.Engine.{Record}
use lbsync.Engine.Store.Advance.{Beats, Advances}
use lbsync.Engine.Race.{
  Cell, Stage, ended, Call, skip, go, acquire, refused, beaten, decide, unread, put, put_late,
  put_lost, release, leave, Nodes, of_node, expire, at_rest, Turns, nil, after,
}

-- A call other than a lock that is acquired and a second Get that fails.
unfoldable pub Unlocked :
    {firm : Bool} {r : Record} {i : ℕ} {m m' : Cell} {p p' : Stage}
    → Call firm r i m p m' p'
    → Type 0
Unlocked (skip h old) = Unit {0}
Unlocked go = Unit {0}
Unlocked (acquire free) = ⊥
Unlocked (refused weak) = Unit {0}
Unlocked (beaten h old) = Unit {0}
Unlocked (decide beats) = Unit {0}
Unlocked (unread weak) = ⊥
Unlocked put = Unit {0}
Unlocked put_late = Unit {0}
Unlocked put_lost = Unit {0}
Unlocked release = Unit {0}
Unlocked (leave weak) = Unit {0}

-- No node acquires the lock, no lock expires, and no second Get fails.
unfoldable pub AllRefused :
    {firm : Bool} {locals : ℕ → Record} {s t : Nodes} → Turns firm locals s t → Type 0
AllRefused nil = Unit {0}
AllRefused (after before (of_node i call)) = AllRefused before × Unlocked call
AllRefused (after before (expire weak)) = ⊥

-- Two nodes have records that are newer than what the cluster holds. If both locks are refused, there
-- is an order of their steps, in which no lock is acquired or expires and both second Gets succeed,
-- after which both have ended without an error and the cluster holds the older of the two records: it
-- is behind the record of a node that published it.
pub refused_regresses :
    (locals : ℕ → Record) (old : Option Record)
    → Beats (locals 0) old
    → Beats (locals 1) old
    → newer (locals 1).version (locals 0).version ≡ true
    → (s : Nodes) × (run : Turns false locals (at_rest old) s) × AllRefused run
      × (s.stage 0 ≡ ended true)
      × (s.stage 1 ≡ ended true)
      × (s.cell.stored ≡ some (locals 0))
      × ¬ Advances (some (locals 1)) s.cell.stored
unfolding AllRefused Unlocked
refused_regresses locals old first second order = (
  _,
  after
      (after
        (after
          (after
            (after
              (after
                (after
                  (after (after (after nil (of_node 0 go)) (of_node 1 go))
                    (of_node 0 (refused refl)))
                  (of_node 1 (refused refl)))
                (of_node 0 (decide first)))
              (of_node 1 (decide second)))
            (of_node 1 put))
          (of_node 0 put))
        (of_node 0 (leave refl)))
      (of_node 1 (leave refl)),
  ((((((((((tt, tt), tt), tt), tt), tt), tt), tt), tt), tt), tt),
  refl,
  refl,
  refl,
  λ (c, e, old_one). cc (e, order, old_one),
)
