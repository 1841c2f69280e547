-- ===== src/Engine/Store.antt =====
-- What internal/engine/engine.go relies on of the cluster behind `ClusterKV`.
pub mod Advance
pub mod Guarded
use lbsync.Prelude.{
  Bool-cases, inl, inr, true, false, same_iff, sym, ◌≡◌, ◌⊎◌, Text, same, Option, some, ok, ◌&&◌, ℤ,
  if◌then◌else◌,
}
use lbsync.Engine.{Record, ClusterKv}

-- What stands at (k, j) after `r` was written, if `old` stood there.
abbrev pub written : Record → Text → Text → Option Record → Option Record
written r k j old = if same r.kind k && same r.key j then some r else old

-- What the engine relies on: the records are a map that reads and locks leave as it is, and a
-- write replaces the one record that it names, or fails and may have replaced it or not.
pub record IsStore {C : Type 0} (K : ClusterKv C) (view : C → Text → Text → Option Record)
    : Type 0 where
  pub get_eq : (k j : Text) (c : C) → (K.get k j c).0 ≡ ok (view c k j)
  pub view-get : (k j : Text) (c : C) (k' j' : Text) → view (K.get k j c).1 k' j' ≡ view c k' j'
  pub view-keys : (k : Text) (c : C) (k' j' : Text) → view (K.keys k c).1 k' j' ≡ view c k' j'
  pub view-lock :
      (k j : Text) (ttl : ℤ) (c : C) (k' j' : Text) → view (K.lock k j ttl c).1 k' j' ≡ view c k' j'
  pub view-release :
      (k j : Text) (ttl : ℤ) (c d : C) (release : C → C) (k' j' : Text)
      → (K.lock k j ttl c).0 ≡ ok release
      → view (release d) k' j' ≡ view d k' j'
  pub view-put :
      (r : Record) (c : C) (k j : Text)
      → (K.put r c).0 ≡ ok tt
      → view (K.put r c).1 k j ≡ written r k j (view c k j)
  pub view-put_failed :
      (r : Record) (c : C) (k j : Text)
      → (view (K.put r c).1 k j ≡ written r k j (view c k j))
        ⊎ (view (K.put r c).1 k j ≡ view c k j)

-- (k, j) is the place of `r`, or not.
pub place_cases :
    (r : Record) (k j : Text)
    → ((same r.kind k && same r.key j ≡ true) × (k ≡ r.kind) × (j ≡ r.key))
      ⊎ (same r.kind k && same r.key j ≡ false)
place_cases r k j = elim (Bool-cases (same r.kind k)) [
  | inr m ↦ inr (rw m)
  | inl m ↦ elim (Bool-cases (same r.key j)) [
    | inr n ↦ inr (rw (m, n))
    | inl n ↦ inl (rw (m, n), sym ((same_iff r.kind k).0 m), sym ((same_iff r.key j).0 n))
  ]
]
