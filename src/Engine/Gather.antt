-- ===== src/Engine/Gather.antt =====
-- `gatherKeys` of internal/engine/engine.go.
pub mod Union
use lbsync.Prelude.{Text, contains, List, [], ◌∷◌, ◌++◌, Result, ok, err, if◌then◌else◌}
use lbsync.Prelude.Dict.{Dict, insert, keys}
use lbsync.Engine.{Record, Provider, Engine, St}

-- localByKey, filled in the order of the records.
unfoldable pub index_locals : List Record → Dict Record → Dict Record
index_locals [] m = m
index_locals (r ∷ rs) m = index_locals rs (insert m r.key r)

-- The loops of gatherKeys: `seen` holds the same keys as `keys`.
unfoldable pub add_unseen : List Text → List Text → List Text
add_unseen ks [] = ks
add_unseen ks (k ∷ more) = add_unseen (if contains ks k then ks else ks ++ (k ∷ [])) more

abbrev pub or_empty {ℓ} : {A : Type ℓ} → Result (List A) → List A
or_empty (ok xs) = xs
or_empty (err e) = []

-- localByKey: no records if p.Local fails.
unfoldable pub locals_of : {P : Type 0} → Provider P → P → Dict Record
locals_of p node = index_locals (or_empty (p.local node).0) []

module _ {P C : Type 0} (e : Engine P C) where
  -- gatherKeys
  unfoldable pub gather_keys : Provider P → St P C → (Dict Record × List Text) × St P C
  unfolding locals_of index_locals add_unseen
  gather_keys p s =
      let (_, node') = p.local s.node in
      let local_by_key = locals_of p s.node in
      let mine = add_unseen [] (e.range_order (keys local_by_key)) in
      let (cluster_keys, cluster') = e.cluster.keys p.kind s.cluster in
      (
        (local_by_key, add_unseen mine (or_empty cluster_keys)),
        record s { node = node'; cluster = cluster' },
      )
