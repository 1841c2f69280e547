-- ===== src/Engine/Gather/Union.antt =====
-- The keys and records that `gatherKeys` of internal/engine/engine.go returns.
use lbsync.Prelude.{
  Bool, some, is_some, ap, sym, ◌∙◌, ◌⊎◌, same, Distinct, Distinct-snoc, Bool-cases, inl, inr, ◌≡◌,
  ◌||◌, contains-append, same_iff, arith, Text, contains, List, [], ◌∷◌, ◌++◌,
}
use lbsync.Prelude.Dict.{Dict, insert, keys, lookup, lookup-insert, contains-keys}
use lbsync.Engine.{Record, Provider, Engine, St}
use lbsync.Engine.Gather.{gather_keys, index_locals, add_unseen, or_empty}

add_unseen-Distinct : (ks more : List Text) → Distinct ks → Distinct (add_unseen ks more)
unfolding add_unseen
add_unseen-Distinct ks [] d = d
add_unseen-Distinct ks (k ∷ more) d = elim (Bool-cases (contains ks k)) [
  | inl old ↦ rw old (add_unseen-Distinct ks more d)
  | inr fresh ↦ rw fresh (add_unseen-Distinct (ks ++ (k ∷ [])) more (Distinct-snoc ks k d fresh))
]

contains-add_unseen :
    (ks more : List Text) (k : Text)
    → contains (add_unseen ks more) k ≡ (contains ks k || contains more k)
unfolding add_unseen contains
contains-add_unseen ks [] k = ground arith
contains-add_unseen ks (j ∷ more) k = ground (
  arith,
  contains-add_unseen ks more k,
  contains-add_unseen (ks ++ (j ∷ [])) more k,
  contains-append ks (j ∷ []) k,
  same_iff j k,
)

-- The record that localByKey holds under a key has that key, and is one that the provider gave.
abbrev pub Mentions : List Record → Record → Type 0
Mentions [] r = ⊥
Mentions (a ∷ rs) r = (a ≡ r) ⊎ Mentions rs r

lookup-index_locals :
    (rs : List Record) (m : Dict Record) (k : Text) (r : Record)
    → lookup (index_locals rs m) k ≡ some r
    → ((r.key ≡ k) × Mentions rs r) ⊎ (lookup m k ≡ some r)
unfolding index_locals
lookup-index_locals [] m k r h = inr h
lookup-index_locals (a ∷ rs) m k r h = elim (lookup-index_locals rs (insert m a.key a) k r h) [
  | inl (e, found) ↦ inl (e, inr found)
  | inr old ↦ elim (Bool-cases (same a.key k)) [
    | inl here ↦
        let got : some a ≡ some r = rw (lookup-insert m a.key a k, here) at old in
        let e : a ≡ r = cc in
        inl (ap (λ (x : Record). x.key) (sym e) ∙ (same_iff a.key k).0 here, inl e)
    | inr there ↦ inr (rw (lookup-insert m a.key a k, there) at old)
  ]
]

module _ {P C : Type 0} (e : Engine P C) (p : Provider P) (s : St P C) where
  abbrev local_records : List Record
  local_records = or_empty (p.local s.node).0

  abbrev cluster_keys : List Text
  cluster_keys = or_empty (e.cluster.keys p.kind s.cluster).0

  abbrev own : List Text
  own = keys (index_locals local_records [])

  abbrev mine : List Text
  mine = add_unseen [] (e.range_order own)

  -- Whatever the order in which a range visits exactly the keys of the map: no key is listed twice, and a key is listed
  -- exactly if this node has a record under it or the cluster lists it.
  pub gather_keys-union :
      ((ks : List Text) (k : Text) → contains (e.range_order ks) k ≡ contains ks k)
      → let found = (gather_keys e p s).0 in
        Distinct found.1
        × ((k : Text)
            → contains found.1 k ≡ (is_some (lookup found.0 k) || contains cluster_keys k))
  unfolding gather_keys contains
  gather_keys-union order = (
    add_unseen-Distinct mine cluster_keys (add_unseen-Distinct [] (e.range_order own) tt),
    λ k.
        contains-add_unseen mine cluster_keys k
        ∙ ap (λ (b : Bool). b || contains cluster_keys k)
            (contains-add_unseen [] (e.range_order own) k
              ∙ order own k
              ∙ contains-keys (index_locals local_records []) k),
  )

  -- A record that is found under a key bears that key and is one of the provider's.
  pub gather_keys-local :
      (k : Text) (r : Record)
      → lookup (gather_keys e p s).0.0 k ≡ some r
      → (r.key ≡ k) × Mentions local_records r
  unfolding gather_keys
  gather_keys-local k r h = elim (lookup-index_locals local_records [] k r h) [
    | inl found ↦ found
    | inr old ↦ unfold lookup in absurd (cc)
  ]
