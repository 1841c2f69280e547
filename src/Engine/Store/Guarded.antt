-- ===== src/Engine/Store/Guarded.antt =====
-- What internal/engine/engine.go relies on of a cluster that holds records at plain places only, which
-- are kinds and keys: other places may be the cluster's own, and what it holds must be readable.
use lbsync.Prelude.{Result, none, err, ◌≡◌, ◌⊎◌, Text, Option, ok, ℤ}
use lbsync.Engine.{Record, ClusterKv}
use lbsync.Engine.Store.{written}
use lbsync.Engine.Store.Advance.{Advances, Advances-refl}

module _ {C : Type 0} (view : C → Text → Text → Option Record) (Valid : C → Type 0)
    (Plain : Text → Text → Type 0) where
  -- No record at a plain place changes.
  abbrev pub Keeps : C → C → Type 0
  Keeps c d = Valid d × ((k j : Text) → Plain k j → view d k j ≡ view c k j)

-- In a valid state the records at plain places are a map: a read answers what stands there, all calls
-- but a write leave it as it is, and a write replaces the one record that it names, or fails and may
-- have replaced it or not.
pub record IsStoreOn {C : Type 0} (K : ClusterKv C) (view : C → Text → Text → Option Record)
    (Valid : C → Type 0) (Plain : Text → Text → Type 0) : Type 0 where
  pub get_eq : (k j : Text) (c : C) → Valid c → Plain k j → (K.get k j c).0 ≡ ok (view c k j)
  pub get-Keeps : (k j : Text) (c : C) → Valid c → Keeps view Valid Plain c (K.get k j c).1
  pub keys-Keeps : (k : Text) (c : C) → Valid c → Keeps view Valid Plain c (K.keys k c).1
  pub members-Keeps : (c : C) → Valid c → Keeps view Valid Plain c (K.members c).1
  pub lock-Keeps :
      (k j : Text) (ttl : ℤ) (c : C) → Valid c → Keeps view Valid Plain c (K.lock k j ttl c).1
  pub release-Keeps :
      (k j : Text) (ttl : ℤ) (c d : C) (release : C → C)
      → (K.lock k j ttl c).0 ≡ ok release
      → Valid d
      → Keeps view Valid Plain d (release d)
  pub put-Valid : (r : Record) (c : C) → Valid c → Plain r.kind r.key → Valid (K.put r c).1
  pub view-put :
      (r : Record) (c : C) (k j : Text)
      → Valid c
      → Plain r.kind r.key
      → Plain k j
      → (K.put r c).0 ≡ ok tt
      → view (K.put r c).1 k j ≡ written r k j (view c k j)
  pub view-put_failed :
      (r : Record) (c : C) (k j : Text)
      → Valid c
      → Plain r.kind r.key
      → Plain k j
      → (view (K.put r c).1 k j ≡ written r k j (view c k j))
        ⊎ (view (K.put r c).1 k j ≡ view c k j)

-- The value that Get gives beside an error, which is nil.
abbrev pub answered : Result (Option Record) → Option Record
answered (ok found) = found
answered (err e) = none

-- What never going back needs: Get may know more than the cluster holds at a place, but never answers
-- with less.
pub record IsForward {C : Type 0} (K : ClusterKv C) (view : C → Text → Text → Option Record)
    (Valid : C → Type 0) (Plain : Text → Text → Type 0) : Type 0 where
  pub get_sees :
      (k j : Text) (c : C) → Valid c → Plain k j → Advances (view c k j) (answered (K.get k j c).0)
  pub get-Keeps : (k j : Text) (c : C) → Valid c → Keeps view Valid Plain c (K.get k j c).1
  pub keys-Keeps : (k : Text) (c : C) → Valid c → Keeps view Valid Plain c (K.keys k c).1
  pub members-Keeps : (c : C) → Valid c → Keeps view Valid Plain c (K.members c).1
  pub lock-Keeps :
      (k j : Text) (ttl : ℤ) (c : C) → Valid c → Keeps view Valid Plain c (K.lock k j ttl c).1
  pub release-Keeps :
      (k j : Text) (ttl : ℤ) (c d : C) (release : C → C)
      → (K.lock k j ttl c).0 ≡ ok release
      → Valid d
      → Keeps view Valid Plain d (release d)
  pub put-Valid : (r : Record) (c : C) → Valid c → Plain r.kind r.key → Valid (K.put r c).1
  pub view-put_failed :
      (r : Record) (c : C) (k j : Text)
      → Valid c
      → Plain r.kind r.key
      → Plain k j
      → (view (K.put r c).1 k j ≡ written r k j (view c k j))
        ⊎ (view (K.put r c).1 k j ≡ view c k j)

pub IsStoreOn-IsForward :
    {C : Type 0} {K : ClusterKv C} {view : C → Text → Text → Option Record} {Valid : C → Type 0}
    {Plain : Text → Text → Type 0}
    → IsStoreOn K view Valid Plain
    → IsForward K view Valid Plain
IsStoreOn-IsForward {view = view} L = record {
  get_sees = λ k j c valid plain. rw (L.get_eq k j c valid plain) (Advances-refl (view c k j));
  get-Keeps = L.get-Keeps;
  keys-Keeps = L.keys-Keeps;
  members-Keeps = L.members-Keeps;
  lock-Keeps = L.lock-Keeps;
  release-Keeps = L.release-Keeps;
  put-Valid = L.put-Valid;
  view-put_failed = L.view-put_failed;
}
