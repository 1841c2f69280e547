-- ===== src/Cluster/Race.antt =====
-- `addToIndex` of internal/cluster/cluster.go on many nodes at once.
--
-- A step is one call on the map of a kind: the lock, the read of the index, its write, the release.
-- The nodes take their steps in any order. If `firm` is false, a lock may be refused, after which the
-- code goes on without it, and a lock that is held may expire. Calls that fail, which end it with an
-- error, are left out.
pub mod Safety
pub mod Loss
use lbsync.Prelude.{
  ℕ, ◌≡◌, Text, contains, Bool, true, false, Option, none, some, List, [], ◌∷◌, ◌++◌, ◌==◌,
  if◌then◌else◌,
}

-- The index of the kind, and the node that holds its lock.
pub record Shared : Type 0 where
  pub index : List Text
  pub holder : Option ℕ

-- Where a node is in addToIndex for a key, and whether it acquired the lock.
pub data Pc : Type 0 where
  start : Text → Pc
  reading : Bool → Text → Pc
  got : Bool → Text → List Text → Pc
  leaving : Bool → Text → Pc
  done : Text → Pc

pub data Move (firm : Bool) (i : ℕ) (m : Shared) : Pc → Shared → Pc → Type 0 where
  acquire :
      {k : Text}
      → m.holder ≡ none
      → Move firm i m (start k) (record m { holder = some i }) (reading true k)
  refused : {k : Text} → firm ≡ false → Move firm i m (start k) m (reading false k)
  read : {b : Bool} {k : Text} → Move firm i m (reading b k) m (got b k m.index)
  present :
      {b : Bool} {k : Text} {ks : List Text}
      → contains ks k ≡ true
      → Move firm i m (got b k ks) m (leaving b k)
  write :
      {b : Bool} {k : Text} {ks : List Text}
      → contains ks k ≡ false
      → Move firm i m (got b k ks) (record m { index = ks ++ (k ∷ []) }) (leaving b k)
  release : {k : Text} → Move firm i m (leaving true k) (record m { holder = none }) (done k)
  leave : {k : Text} → firm ≡ false → Move firm i m (leaving false k) m (done k)

pub record System : Type 0 where
  pub mem : Shared
  pub pc : ℕ → Pc

abbrev pub update : (ℕ → Pc) → ℕ → Pc → ℕ → Pc
update f i p j = if i == j then p else f j

pub data Step (firm : Bool) (s : System) : System → Type 0 where
  pick :
      (i : ℕ) {m : Shared} {p : Pc}
      → Move firm i s.mem (s.pc i) m p
      → Step firm s (record { mem = m; pc = update s.pc i p })
  expire : firm ≡ false → Step firm s (record s { mem = record s.mem { holder = none } })

-- Node `i` is to add the key `keys i`.
abbrev pub init : List Text → (ℕ → Text) → System
init index keys = record { mem = record { index = index; holder = none }; pc = λ i. start (keys i) }

pub data Reach (firm : Bool) (s : System) : System → Type 0 where
  here : Reach firm s s
  later : {t u : System} → Reach firm s t → Step firm t u → Reach firm s u
