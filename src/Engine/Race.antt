-- ===== src/Engine/Race.antt =====
-- `maybePublish` of internal/engine/engine.go on many nodes at once.
--
-- A step is one call on the cluster for one kind and key: the first Get, the lock, the second Get, the
-- put, the release. The nodes take their steps in any order, and a put may fail, having written or
-- not. If `firm` is false, a lock may be refused, after which the code goes on without it, a lock that
-- is held may expire, and the second Get may fail, which counts as finding nothing.
pub mod Safety
pub mod Loss
use lbsync.Prelude.{ℕ, ◌≡◌, Bool, true, false, Option, none, some, ◌==◌, if◌then◌else◌}
use lbsync.Version.{newer}
use lbsync.Engine.{Record}
use lbsync.Engine.Store.Advance.{Beats}

-- The record that the cluster holds, and the node that holds its lock.
pub record Cell : Type 0 where
  pub stored : Option Record
  pub owner : Option ℕ

-- Where a node is, whether it acquired the lock, and whether it ends without an error.
pub data Stage : Type 0 where
  waiting : Stage
  checking : Bool → Stage
  putting : Bool → Stage
  leaving : Bool → Bool → Stage
  ended : Bool → Stage
  starting : Stage

-- A call of node `i`, whose own record is `r`. It goes on to the lock if the first Get finds an older
-- record or none, or fails.
pub data Call (firm : Bool) (r : Record) (i : ℕ) (m : Cell) : Stage → Cell → Stage → Type 0 where
  skip :
      {c : Record}
      → m.stored ≡ some c
      → newer r.version c.version ≡ false
      → Call firm r i m starting m (ended true)
  go : Call firm r i m starting m waiting
  acquire : m.owner ≡ none → Call firm r i m waiting (record m { owner = some i }) (checking true)
  refused : firm ≡ false → Call firm r i m waiting m (checking false)
  beaten :
      {b : Bool} {c : Record}
      → m.stored ≡ some c
      → newer r.version c.version ≡ false
      → Call firm r i m (checking b) m (leaving b true)
  decide : {b : Bool} → Beats r m.stored → Call firm r i m (checking b) m (putting b)
  unread : {b : Bool} → firm ≡ false → Call firm r i m (checking b) m (putting b)
  put : {b : Bool} → Call firm r i m (putting b) (record m { stored = some r }) (leaving b true)
  put_late :
      {b : Bool} → Call firm r i m (putting b) (record m { stored = some r }) (leaving b false)
  put_lost : {b : Bool} → Call firm r i m (putting b) m (leaving b false)
  release :
      {fine : Bool} → Call firm r i m (leaving true fine) (record m { owner = none }) (ended fine)
  leave : {fine : Bool} → firm ≡ false → Call firm r i m (leaving false fine) m (ended fine)

pub record Nodes : Type 0 where
  pub cell : Cell
  pub stage : ℕ → Stage

abbrev pub moved : (ℕ → Stage) → ℕ → Stage → ℕ → Stage
moved f i p j = if i == j then p else f j

pub data Turn (firm : Bool) (locals : ℕ → Record) (s : Nodes) : Nodes → Type 0 where
  of_node :
      (i : ℕ) {m : Cell} {p : Stage}
      → Call firm (locals i) i s.cell (s.stage i) m p
      → Turn firm locals s (record { cell = m; stage = moved s.stage i p })
  expire : firm ≡ false → Turn firm locals s (record s { cell = record s.cell { owner = none } })

-- No node has begun, and nobody has the lock.
abbrev pub at_rest : Option Record → Nodes
at_rest old = record { cell = record { stored = old; owner = none }; stage = λ i. starting }

pub data Turns (firm : Bool) (locals : ℕ → Record) (s : Nodes) : Nodes → Type 0 where
  nil : Turns firm locals s s
  after : {t u : Nodes} → Turns firm locals s t → Turn firm locals t u → Turns firm locals s u
