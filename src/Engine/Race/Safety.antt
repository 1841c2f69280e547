-- ===== src/Engine/Race/Safety.antt =====
-- Publishing on many nodes (internal/engine/engine.go) under locks that are neither refused nor expire,
-- with a second Get that does not fail.
use mathlib.Core.Path.{subst}
use lbsync.Prelude.{
  ℕ, ◌≡◌, ◌≢◌, ◌⊎◌, ◌∙◌, refl, Bool, Bool-cases, inl, inr, true, false, Option, some, ◌==◌, ==_iff,
}
use lbsync.Version.{newer}
use lbsync.Version.Order.{newer_irrefl}
use lbsync.Engine.{Record}
use lbsync.Engine.Store.Advance.{Beats}
use lbsync.Engine.Store.Advance.{Beats-Advances, Advances, Advances-refl, Advances-trans}
use lbsync.Engine.Race.{
  Cell, Stage, starting, waiting, checking, putting, leaving, ended, Call, skip, go, acquire,
  refused, beaten, decide, unread, put, put_late, put_lost, release, leave, Nodes, Turn, of_node,
  expire, at_rest, Turns, nil, after,
}

-- The cluster holds `r`, or a record that is not older.
unfoldable Caught : Bool → Record → Cell → Type 0
Caught fine r m = (fine ≡ true) → Advances (some r) m.stored

-- What holds of node `i`, whose record is `r`: it has the lock between its acquisition and its release,
-- what the second Get found still stands there when it puts, and the cluster is not behind at the end.
unfoldable Good : Cell → Record → ℕ → Stage → Type 0
Good m r i starting = Unit {0}
Good m r i waiting = Unit {0}
Good m r i (checking b) = (b ≡ true) × (m.owner ≡ some i)
Good m r i (putting b) = (b ≡ true) × (m.owner ≡ some i) × Beats r m.stored
Good m r i (leaving b fine) = (b ≡ true) × (m.owner ≡ some i) × Caught fine r m
Good m r i (ended fine) = Caught fine r m

Advances-beaten :
    (r c : Record) (o : Option Record)
    → o ≡ some c
    → newer r.version c.version ≡ false
    → Advances (some r) o
Advances-beaten r c o h old = rw h (c, refl, old)

-- The node that moves.
Call-Good :
    {r : Record} {i : ℕ} {m m' : Cell} {p p' : Stage}
    → Call true r i m p m' p'
    → Good m r i p
    → Good m' r i p' × Advances m.stored m'.stored
unfolding Good Caught
Call-Good {r = r} {m = m} (skip {c = c} h old) g =
    (λ e. Advances-beaten r c m.stored h old, Advances-refl _)
Call-Good {m = m} go g = (tt, Advances-refl m.stored)
Call-Good {m = m} (acquire free) g = ((refl, refl), Advances-refl m.stored)
Call-Good (refused no_) g = absurd (cc)
Call-Good {r = r} {m = m} (beaten {c = c} h old) g =
    ((g.0, g.1, λ e. Advances-beaten r c m.stored h old), Advances-refl m.stored)
Call-Good {m = m} (decide beats) g = ((g.0, g.1, beats), Advances-refl m.stored)
Call-Good (unread no_) g = absurd (cc)
Call-Good {r = r} {m = m} put g =
    ((g.0, g.1, λ e. (r, refl, newer_irrefl r.version)), Beats-Advances r m.stored g.2)
Call-Good {r = r} {m = m} put_late g = ((g.0, g.1, λ e. absurd (cc)), Beats-Advances r m.stored g.2)
Call-Good {m = m} put_lost g = ((g.0, g.1, λ e. absurd (cc)), Advances-refl m.stored)
Call-Good {m = m} release g = (g.2, Advances-refl m.stored)
Call-Good (leave no_) g = absurd (cc)

-- A step of node `i` leaves the lock of another node as it is, and with it what the cluster holds.
Call-others :
    {r : Record} {i j : ℕ} {m m' : Cell} {p p' : Stage}
    → i ≢ j
    → Call true r i m p m' p'
    → Good m r i p
    → m.owner ≡ some j
    → (m'.owner ≡ some j) × (m'.stored ≡ m.stored)
unfolding Good
Call-others ne (skip h old) g own = (own, refl)
Call-others ne go g own = (own, refl)
Call-others ne (acquire free) g own = absurd (cc (free, own))
Call-others ne (refused no_) g own = absurd (cc)
Call-others ne (beaten h old) g own = (own, refl)
Call-others ne (decide beats) g own = (own, refl)
Call-others ne (unread no_) g own = absurd (cc)
Call-others ne put g own = absurd (ne (cc (own, g.1)))
Call-others ne put_late g own = absurd (ne (cc (own, g.1)))
Call-others ne put_lost g own = (own, refl)
Call-others ne release g own = absurd (ne (cc (own, g.1)))
Call-others ne (leave no_) g own = absurd (cc)

Caught-later :
    (fine : Bool) (r : Record) (m m' : Cell)
    → Advances m.stored m'.stored
    → Caught fine r m
    → Caught fine r m'
unfolding Caught
Caught-later fine r m m' adv caught e = Advances-trans (some r) m.stored m'.stored (caught e) adv

Good-later :
    (m m' : Cell) (r : Record) (j : ℕ) (q : Stage)
    → (m.owner ≡ some j → (m'.owner ≡ some j) × (m'.stored ≡ m.stored))
    → Advances m.stored m'.stored
    → Good m r j q
    → Good m' r j q
unfolding Good
Good-later m m' r j starting kept adv g = tt
Good-later m m' r j waiting kept adv g = tt
Good-later m m' r j (checking b) kept adv g = (g.0, (kept g.1).0)
Good-later m m' r j (putting b) kept adv g = (g.0, (kept g.1).0, rw (kept g.1).1 g.2)
Good-later m m' r j (leaving b fine) kept adv g =
    (g.0, (kept g.1).0, Caught-later fine r m m' adv g.2)
Good-later m m' r j (ended fine) kept adv g = Caught-later fine r m m' adv g

-- A put writes the record of its node.
Call-stored :
    {firm : Bool} {r : Record} {i : ℕ} {m m' : Cell} {p p' : Stage}
    → Call firm r i m p m' p'
    → (m'.stored ≡ m.stored) ⊎ (m'.stored ≡ some r)
Call-stored (skip h old) = inl refl
Call-stored go = inl refl
Call-stored (acquire free) = inl refl
Call-stored (refused no_) = inl refl
Call-stored (beaten h old) = inl refl
Call-stored (decide beats) = inl refl
Call-stored (unread no_) = inl refl
Call-stored put = inr refl
Call-stored put_late = inr refl
Call-stored put_lost = inl refl
Call-stored release = inl refl
Call-stored (leave no_) = inl refl

module _ (locals : ℕ → Record) where
  abbrev IsGood : Nodes → Type 0
  IsGood s = (j : ℕ) → Good s.cell (locals j) j (s.stage j)

  Turn-IsGood :
      {s t : Nodes}
      → Turn true locals s t
      → IsGood s
      → IsGood t × Advances s.cell.stored t.cell.stored
  Turn-IsGood (expire no_) h = absurd (cc)
  Turn-IsGood {s} (of_node i {m = m} {p = p} call) h =
      let (mine, adv) = Call-Good call (h i) in
      (
        λ j. elim (Bool-cases (i == j)) [
          | inl e ↦ rw e (subst (λ n. Good m (locals n) n p) ((==_iff i j).0 e) mine)
          | inr e ↦ rw e (
              Good-later s.cell m (locals j) j (s.stage j)
                (Call-others (λ k. cc ((==_iff i j).1 k, e)) call (h i)) adv (h j))
        ],
        adv,
      )

  Turns-IsGood :
      {s t : Nodes}
      → Turns true locals s t
      → IsGood s
      → IsGood t × Advances s.cell.stored t.cell.stored
  Turns-IsGood {s} nil h = (h, Advances-refl s.cell.stored)
  Turns-IsGood {s} {t} (after {t = mid} before last) h =
      let (good, adv) = Turns-IsGood before h in
      let (good', adv') = Turn-IsGood last good in
      (good', Advances-trans s.cell.stored mid.cell.stored t.cell.stored adv adv')

  -- What the cluster holds is what it held, or a record of one of the nodes.
  abbrev pub Origin : Option Record → Option Record → Type 0
  Origin old new = (new ≡ old) ⊎ ((i : ℕ) × (new ≡ some (locals i)))

  Turns-Origin :
      {firm : Bool} {s t : Nodes} → Turns firm locals s t → Origin s.cell.stored t.cell.stored
  Turns-Origin nil = inl refl
  Turns-Origin (after before (expire no_)) = Turns-Origin before
  Turns-Origin (after before (of_node i call)) = elim (Call-stored call) [
    | inr own ↦ inr (i, own)
    | inl kept ↦ elim (Turns-Origin before) [
      | inl same ↦ inl (kept ∙ same)
      | inr (j, own) ↦ inr (j, kept ∙ own)
    ]
  ]

  -- In whatever order the nodes take their steps, and whichever puts fail: as long as no lock is refused
  -- or expires and the second Get does not fail, the cluster does not go back behind what it held, it is
  -- not behind the record of any node that ended without an error, and what it holds is what it held or
  -- the record of a node.
  pub Turns-newest :
      (old : Option Record) (s : Nodes)
      → Turns true locals (at_rest old) s
      → Advances old s.cell.stored
        × ((i : ℕ) → s.stage i ≡ ended true → Advances (some (locals i)) s.cell.stored)
        × Origin old s.cell.stored
  Turns-newest old s turns =
      let (good, adv) = Turns-IsGood turns (λ j. unfold Good in tt) in
      (
        adv,
        λ i h.
            unfold Good Caught in subst (λ (q : Stage). Good s.cell (locals i) i q) h (good i) refl,
        Turns-Origin turns,
      )
