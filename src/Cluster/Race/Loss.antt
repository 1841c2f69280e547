-- ===== src/Cluster/Race/Loss.antt =====
-- The index of keys (internal/cluster/cluster.go) on two nodes that both go on without the lock.
use lbsync.Prelude.{
  ℕ, ◌≡◌, refl, Text, same, contains, contains-append, Bool, true, false, List, [], ◌∷◌, ◌++◌,
  arith,
}
use lbsync.Cluster.Race.{
  Shared, Pc, done, Move, acquire, refused, read, present, write, release, leave, System, pick,
  expire, init, Reach, here, later,
}
use lbsync.Cluster.Race.Safety.{contains_last}

contains-snoc_other :
    (ks : List Text) (k j : Text)
    → contains ks j ≡ false
    → same k j ≡ false
    → contains (ks ++ (k ∷ [])) j ≡ false
unfolding contains
contains-snoc_other ks k j h e = ground (arith, contains-append ks (k ∷ []) j)

-- A call other than a lock that is acquired.
unfoldable pub Unlocked :
    {firm : Bool} {i : ℕ} {m m' : Shared} {p p' : Pc} → Move firm i m p m' p' → Type 0
Unlocked (acquire free) = ⊥
Unlocked (refused weak) = Unit {0}
Unlocked read = Unit {0}
Unlocked (present h) = Unit {0}
Unlocked (write h) = Unit {0}
Unlocked release = Unit {0}
Unlocked (leave weak) = Unit {0}

-- No node acquires the lock, and no lock expires.
unfoldable pub AllRefused : {firm : Bool} {s t : System} → Reach firm s t → Type 0
AllRefused here = Unit {0}
AllRefused (later before (pick i move)) = AllRefused before × Unlocked move
AllRefused (later before (expire weak)) = ⊥

-- Two nodes add different keys that are not listed. If both locks are refused, there is an order of
-- their steps, in which no lock is acquired or expires, after which both are done, with no error, and
-- the key of one is listed and that of the other is not.
pub refused_loses :
    (index : List Text) (keys : ℕ → Text)
    → contains index (keys 0) ≡ false
    → contains index (keys 1) ≡ false
    → same (keys 1) (keys 0) ≡ false
    → (s : System) × (run : Reach false (init index keys) s) × AllRefused run
      × (s.pc 0 ≡ done (keys 0))
      × (s.pc 1 ≡ done (keys 1))
      × (contains s.mem.index (keys 1) ≡ true)
      × (contains s.mem.index (keys 0) ≡ false)
unfolding AllRefused Unlocked
refused_loses index keys fresh fresh' ne = (
  _,
  later
      (later
        (later
          (later
            (later
              (later (later (later here (pick 0 (refused refl))) (pick 1 (refused refl)))
                (pick 0 read))
              (pick 1 read))
            (pick 0 (write fresh)))
          (pick 1 (write fresh')))
        (pick 0 (leave refl)))
      (pick 1 (leave refl)),
  ((((((((tt, tt), tt), tt), tt), tt), tt), tt), tt),
  refl,
  refl,
  contains_last index (keys 1),
  contains-snoc_other index (keys 1) (keys 0) fresh ne,
)
