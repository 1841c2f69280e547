-- ===== src/Cluster/Race/Safety.antt =====
-- The index of keys (internal/cluster/cluster.go) under locks that are neither refused nor expire.
use mathlib.Core.Path.{subst}
use lbsync.Prelude.{
  ℕ, ◌≡◌, ◌≢◌, refl, Text, same_refl, contains, contains-append, Bool, Bool-cases, inl, inr, true,
  none, some, List, [], ◌∷◌, ◌++◌, ◌==◌, ==_iff, arith,
}
use lbsync.Cluster.Race.{
  Shared, Pc, start, reading, got, leaving, done, Move, acquire, refused, read, present, write,
  release, leave, System, Step, pick, expire, init, Reach, here, later,
}

-- What holds of node `i` at a place of the code: it has the lock between its acquisition and its
-- release, what it read of the index still stands there, and its key is listed at the end.
unfoldable Good : Shared → ℕ → Pc → Type 0
Good m i (start k) = Unit {0}
Good m i (reading b k) = (b ≡ true) × (m.holder ≡ some i)
Good m i (got b k ks) = (b ≡ true) × (m.holder ≡ some i) × (ks ≡ m.index)
Good m i (leaving b k) = (b ≡ true) × (m.holder ≡ some i) × (contains m.index k ≡ true)
Good m i (done k) = contains m.index k ≡ true

abbrev IsGood : System → Type 0
IsGood s = (i : ℕ) → Good s.mem i (s.pc i)

pub contains_last : (ks : List Text) (k : Text) → contains (ks ++ (k ∷ [])) k ≡ true
unfolding contains
contains_last ks k = ground (arith, contains-append ks (k ∷ []) k, same_refl k)

contains_longer :
    (ks : List Text) (k j : Text) → contains ks j ≡ true → contains (ks ++ (k ∷ [])) j ≡ true
contains_longer ks k j h = ground (arith, contains-append ks (k ∷ []) j)

-- The node that moves.
Move-Good : {i : ℕ} {m m' : Shared} {p p' : Pc} → Move true i m p m' p' → Good m i p → Good m' i p'
unfolding Good
Move-Good (acquire free) g = (refl, refl)
Move-Good (refused no_) g = absurd (cc)
Move-Good read g = (g.0, g.1, refl)
Move-Good (present {k = k} h) g = (g.0, g.1, rw g.2 at h)
Move-Good (write {k = k} {ks = ks} h) g = (g.0, g.1, contains_last ks k)
Move-Good release g = g.2
Move-Good (leave no_) g = absurd (cc)

-- Another node, when node `i` acquires the lock, writes the index or releases the lock.
others-acquire :
    (m : Shared) (i j : ℕ) (q : Pc)
    → m.holder ≡ none
    → Good m j q
    → Good (record m { holder = some i }) j q
unfolding Good
others-acquire m i j (start k) free h = tt
others-acquire m i j (reading b k) free h = absurd (cc (free, h.1))
others-acquire m i j (got b k ks) free h = absurd (cc (free, h.1))
others-acquire m i j (leaving b k) free h = absurd (cc (free, h.1))
others-acquire m i j (done k) free h = h

others-write :
    (m : Shared) (i j : ℕ) (k : Text) (q : Pc)
    → i ≢ j
    → m.holder ≡ some i
    → Good m j q
    → Good (record m { index = m.index ++ (k ∷ []) }) j q
unfolding Good
others-write m i j k (start k') ne own h = tt
others-write m i j k (reading b k') ne own h = h
others-write m i j k (got b k' ks) ne own h = absurd (ne (cc (own, h.1)))
others-write m i j k (leaving b k') ne own h = absurd (ne (cc (own, h.1)))
others-write m i j k (done k') ne own h = contains_longer m.index k k' h

others-release :
    (m : Shared) (i j : ℕ) (q : Pc)
    → i ≢ j
    → m.holder ≡ some i
    → Good m j q
    → Good (record m { holder = none }) j q
unfolding Good
others-release m i j (start k) ne own h = tt
others-release m i j (reading b k) ne own h = absurd (ne (cc (own, h.1)))
others-release m i j (got b k ks) ne own h = absurd (ne (cc (own, h.1)))
others-release m i j (leaving b k) ne own h = absurd (ne (cc (own, h.1)))
others-release m i j (done k) ne own h = h

Move-others :
    {i j : ℕ} {m m' : Shared} {p p' : Pc} (q : Pc)
    → i ≢ j
    → Move true i m p m' p'
    → Good m i p
    → Good m j q
    → Good m' j q
Move-others {i} {j} {m} q ne (acquire free) g h = others-acquire m i j q free h
Move-others q ne (refused no_) g h = h
Move-others q ne read g h = h
Move-others q ne (present e) g h = h
Move-others {i} {j} {m} q ne (write {b = b} {k = k} {ks = ks} e) g h =
    let (flag, own, same_index) = opened b k ks g in rw same_index (others-write m i j k q ne own h)
  where
    opened :
        (b : Bool) (k : Text) (ks : List Text)
        → Good m i (got b k ks)
        → (b ≡ true) × (m.holder ≡ some i) × (ks ≡ m.index)
    opened b k ks g = unfold Good in g
Move-others {i} {j} {m} q ne (release {k = k}) g h = others-release m i j q ne (owned g) h
  where
    owned : Good m i (leaving true k) → m.holder ≡ some i
    owned g = unfold Good in g.1
Move-others q ne (leave no_) g h = h

Step-IsGood : {s t : System} → Step true s t → IsGood s → IsGood t
Step-IsGood (expire no_) h j = absurd (cc)
Step-IsGood {s} (pick i {m = m} {p = p} mv) h j = elim (Bool-cases (i == j)) [
  | inl e ↦ rw e (subst (λ n. Good m n p) ((==_iff i j).0 e) (Move-Good mv (h i)))
  | inr e ↦ rw e (Move-others (s.pc j) (λ k. cc ((==_iff i j).1 k, e)) mv (h i) (h j))
]

Reach-IsGood : {s t : System} → Reach true s t → IsGood s → IsGood t
Reach-IsGood here h = h
Reach-IsGood (later r st) h = Step-IsGood st (Reach-IsGood r h)

-- In whatever order the nodes take their steps: as long as no lock is refused or expires, the index
-- lists the key of every node that is done with adding it.
pub Reach-listed :
    (index : List Text) (keys : ℕ → Text) (s : System) (i : ℕ) (k : Text)
    → Reach true (init index keys) s
    → s.pc i ≡ done k
    → contains s.mem.index k ≡ true
Reach-listed index keys s i k r h =
    unfold Good in subst (λ (p : Pc). Good s.mem i p) h (Reach-IsGood r (λ j. tt) i)
