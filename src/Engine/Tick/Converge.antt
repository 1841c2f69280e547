-- ===== src/Engine/Tick/Converge.antt =====
-- A fleet of nodes over one cluster (internal/engine/engine.go), and what the cluster holds after each
-- node has run a tick.
use mathlib.Core.Path.{subst}
use lbsync.Prelude.{
  refl, ◌∙◌, inl, inr, ◌≡◌, ◌⊎◌, Bool-cases, Text, same_refl, contains, Option, none, some, ok,
  true, List, [], ◌∷◌, All,
}
use lbsync.Prelude.Dict.{lookup}
use lbsync.Version.{newer}
use lbsync.Version.Order.{newer_irrefl, newer_trans}
use lbsync.Engine.{Record, Provider, Engine, St, pick_newer}
use lbsync.Engine.Store.{IsStore}
use lbsync.Engine.Gather.{or_empty, locals_of}
use lbsync.Engine.Gather.Union.{Mentions}
use lbsync.Engine.Tick.{tick_provider}
use lbsync.Engine.Tick.Merge.{tick_provider-merged}

-- A node of the fleet.
pub record Member (P : Type 0) : Type 0 where
  pub provider : Provider P
  pub node : P

pick_newer-absorb : (l o : Option Record) → pick_newer l (pick_newer l o) ≡ pick_newer l o
unfolding pick_newer
pick_newer-absorb none o = refl
pick_newer-absorb (some a) none = rw (newer_irrefl a.version)
pick_newer-absorb (some a) (some b) = elim (Bool-cases (newer a.version b.version)) [
  | inl h ↦ rw h (rw (newer_irrefl a.version))
  | inr h ↦ rw h (rw h)
]

pick_newer-either : (l o : Option Record) → (pick_newer l o ≡ l) ⊎ (pick_newer l o ≡ o)
unfolding pick_newer
pick_newer-either none o = inr refl
pick_newer-either (some a) none = inl refl
pick_newer-either (some a) (some b) = elim (Bool-cases (newer a.version b.version)) [
  | inl h ↦ rw h (inl refl)
  | inr h ↦ rw h (inr refl)
]

pick_newer_self : (o : Option Record) → pick_newer o o ≡ o
unfolding pick_newer
pick_newer_self none = refl
pick_newer_self (some a) = rw (newer_irrefl a.version)

-- What is not older than `l` stays so when another record is merged in.
pick_newer-stable :
    (l m w : Option Record) → pick_newer l w ≡ w → pick_newer l (pick_newer m w) ≡ pick_newer m w
unfolding pick_newer
pick_newer-stable none m w h = refl
pick_newer-stable (some a) none w h = h
pick_newer-stable (some a) (some c) none h = absurd (cc)
pick_newer-stable (some a) (some c) (some b) h = elim (Bool-cases (newer c.version b.version)) [
  | inr n ↦ rw n h
  | inl n ↦ elim (Bool-cases (newer a.version c.version)) [
    | inr x ↦ rw n (rw x)
    | inl x ↦
        let ab = newer_trans a.version c.version b.version x n in
        let e : a ≡ b = cc (rw ab at h) in
        absurd (
          cc
            (newer_irrefl b.version, subst (λ (z : Record). newer z.version b.version ≡ true) e ab))
  ]
]

module _ {P C : Type 0} (e : Engine P C) where
  -- Each node in turn runs the tick of its provider.
  pub fleet_round : List (Member P) → St P C → St P C
  fleet_round [] s = s
  fleet_round (m ∷ ms) s = fleet_round ms (tick_provider e m.provider (record s { node = m.node }))

-- The provider of `m` gives records of the kind `kind` only.
abbrev pub IsOfKind : {P : Type 0} → Text → Member P → Type 0
IsOfKind kind m =
    (m.provider.kind ≡ kind)
    × ((r : Record) → Mentions (or_empty (m.provider.local m.node).0) r → r.kind ≡ m.provider.kind)

module _ {P C : Type 0} (e : Engine P C) (view : C → Text → Text → Option Record)
    (L : IsStore e.cluster view) (reliable : (r : Record) (c : C) → (e.cluster.put r c).0 ≡ ok tt)
    (order : (ks : List Text) (k : Text) → contains (e.range_order ks) k ≡ contains ks k)
    (kind key : Text) where
  member_tick :
      (m : Member P) (s : St P C)
      → IsOfKind kind m
      → view (tick_provider e m.provider (record s { node = m.node })).cluster kind key
        ≡ pick_newer (lookup (locals_of m.provider m.node) key) (view s.cluster kind key)
  member_tick m s (of, kinds) =
      tick_provider-merged e view L reliable m.provider (record s { node = m.node }) order kinds
        kind key
      ∙ rw (of, same_refl kind)

  fleet_round-stable :
      (ms : List (Member P)) (s : St P C) (l : Option Record)
      → All (IsOfKind kind) ms
      → pick_newer l (view s.cluster kind key) ≡ view s.cluster kind key
      → pick_newer l (view (fleet_round e ms s).cluster kind key)
        ≡ view (fleet_round e ms s).cluster kind key
  unfolding fleet_round
  fleet_round-stable [] s l all h = h
  fleet_round-stable (m ∷ ms) s l (one, all) h = fleet_round-stable ms _ l all (
      rw (member_tick m s one) (pick_newer-stable l (lookup (locals_of m.provider m.node) key) _ h))

  -- The node's copy of the key, as it is when the node runs its tick.
  abbrev pub copy_of : Member P → Option Record
  copy_of m = lookup (locals_of m.provider m.node) key

  -- `new` is the copy of one of the nodes, or `old`.
  abbrev pub Among : List (Member P) → Option Record → Option Record → Type 0
  Among [] old new = new ≡ old
  Among (m ∷ ms) old new = (new ≡ copy_of m) ⊎ Among ms old new

  Among-picked :
      (ms : List (Member P)) (l old now new : Option Record)
      → (now ≡ l) ⊎ (now ≡ old)
      → Among ms now new
      → (new ≡ l) ⊎ Among ms old new
  Among-picked [] l old now new (inl e) h = inl (h ∙ e)
  Among-picked [] l old now new (inr e) h = inr (h ∙ e)
  Among-picked (m ∷ ms) l old now new picked (inl own) = inr (inl own)
  Among-picked (m ∷ ms) l old now new picked (inr h) =
      elim (Among-picked ms l old now new picked h) [ inl e ↦ inl e | inr k ↦ inr (inr k) ]

  fleet_round-Among :
      (ms : List (Member P)) (s : St P C)
      → All (IsOfKind kind) ms
      → Among ms (view s.cluster kind key) (view (fleet_round e ms s).cluster kind key)
  unfolding fleet_round
  fleet_round-Among [] s all = refl
  fleet_round-Among (m ∷ ms) s (one, all) =
      Among-picked ms (copy_of m) (view s.cluster kind key) _ _
        (rw (member_tick m s one) (pick_newer-either (copy_of m) (view s.cluster kind key)))
        (fleet_round-Among ms _ all)

  fleet_round-newest :
      (ms : List (Member P)) (s : St P C)
      → All (IsOfKind kind) ms
      → let held = view (fleet_round e ms s).cluster kind key in
        All (λ m. pick_newer (copy_of m) held ≡ held) ms
  unfolding fleet_round
  fleet_round-newest [] s all = tt
  fleet_round-newest (m ∷ ms) s (one, all) = (
    fleet_round-stable ms _ _ all (rw (member_tick m s one) (pick_newer-absorb (copy_of m) _)),
    fleet_round-newest ms _ all,
  )

  -- Over a lawful cluster whose writes succeed, with providers of one kind that give records of that
  -- kind only, and ranges that visit exactly the keys of a map: after each node has run one tick, in
  -- whatever order, what the cluster holds at a key of that kind is what it held before or the copy that
  -- a node had when it ran its tick, and it is the newest of them: picked between it and any of these
  -- copies, and between it and what the cluster held before, it is what is picked.
  pub fleet_round-converges :
      (ms : List (Member P)) (s : St P C)
      → All (IsOfKind kind) ms
      → let old = view s.cluster kind key in
        let held = view (fleet_round e ms s).cluster kind key in
        Among ms old held
        × All (λ m. pick_newer (copy_of m) held ≡ held) ms
        × (pick_newer old held ≡ held)
  fleet_round-converges ms s all = (
    fleet_round-Among ms s all,
    fleet_round-newest ms s all,
    fleet_round-stable ms s (view s.cluster kind key) all
        (pick_newer_self (view s.cluster kind key)),
  )
