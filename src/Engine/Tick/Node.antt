-- ===== src/Engine/Tick/Node.antt =====
-- What a tick of internal/engine/engine.go does to its node, if the writes of the cluster succeed.
use lbsync.Prelude.{
  ◌≡◌, ◌∙◌, refl, ap, suc, ℤ, Text, same, same_iff, same_refl, contains, Distinct, Bool, Bool-cases,
  inl, inr, true, false, Option, none, some, List, [], ◌∷◌, ◌++◌, Result, ok, err, arith,
  if◌then◌else◌,
}
use lbsync.Prelude.Dict.{Dict, lookup}
use lbsync.Engine.{Record, Provider, Engine, St, pick_newer, report}
use lbsync.Engine.Store.{IsStore}
use lbsync.Engine.Gather.{gather_keys, or_empty, locals_of}
use lbsync.Engine.Gather.Union.{Mentions, gather_keys-union}
use lbsync.Engine.Tick.{
  apply_best, report_applied, tick_key, tick_keys, settle, report_duration, tick_provider,
}
use lbsync.Engine.Tick.Merge.{
  IsProper, node-maybe_publish, tick_key-merged_at, gathered, gathered-IsProper, view-gathered,
  gathered-locals_of,
}

abbrev is_change : Result Bool → Bool
is_change (ok b) = b
is_change (err e) = false

-- The keys that changed so far and the node, after what was picked for a key was applied, if anything was.
abbrev pub applied_one :
    {P : Type 0} → Provider P → Text → Option Record → List Text × P → List Text × P
applied_one p key none (changed, node) = (changed, node)
applied_one p key (some r) (changed, node) =
    (if is_change (p.apply r node).0 then changed ++ (key ∷ []) else changed, (p.apply r node).1)

abbrev pub apply_all :
    {P : Type 0} → Provider P → (Text → Option Record) → List Text → List Text × P → List Text × P
apply_all p best [] x = x
apply_all p best (key ∷ ks) x = apply_all p best ks (applied_one p key (best key) x)

-- The node after Flush, called if anything changed, and after Rollback of all that changed, if that
-- fails.
abbrev pub flushed : {P : Type 0} → Provider P → List Text × P → P
flushed p ([], node) = node
flushed p (key ∷ more, node) = elim (p.flush node).0 [
  | ok _ ↦ (p.flush node).1
  | err _ ↦ (p.rollback (key ∷ more) (p.flush node).1).1
]

module _ {P C : Type 0} (e : Engine P C) where
  abbrev side : List Text × St P C → List Text × P
  side x = (x.0, x.1.node)

  side-apply_best :
      (p : Provider P) (key : Text) (best : Option Record) (changed : List Text) (s : St P C)
      → side (apply_best e p key best changed s) ≡ applied_one p key best (changed, s.node)
  unfolding apply_best report_applied
  side-apply_best p key none changed s = refl
  side-apply_best p key (some r) changed s = ground arith

  node-settle :
      (p : Provider P) (changed : List Text) (s : St P C)
      → (settle e p changed s).node ≡ flushed p (changed, s.node)
  unfolding settle report
  node-settle p [] s = refl
  node-settle p (k ∷ ks) s = ground arith

  node-report_duration : (k : Text) (n : ℤ) (s : St P C) → (report_duration e k n s).node ≡ s.node
  unfolding report_duration
  node-report_duration k n s = ground arith

module _ {P C : Type 0} (e : Engine P C) (view : C → Text → Text → Option Record)
    (L : IsStore e.cluster view)
    (reliable : (r : Record) (c : C) → (e.cluster.put r c).0 ≡ ok tt) where
  -- What is picked for a key.
  abbrev pub picked : Provider P → Dict Record → C → Text → Option Record
  picked p m c key = pick_newer (lookup m key) (view c p.kind key)

  side-tick_key :
      (p : Provider P) (m : Dict Record) (key : Text) (changed : List Text) (s : St P C)
      → side e (tick_key e p m key changed s)
        ≡ applied_one p key (picked p m s.cluster key) (changed, s.node)
  unfolding tick_key
  side-tick_key p m key changed s = rw (L.get_eq p.kind key s.cluster) (
      side-apply_best e p key (picked p m s.cluster key) changed _
      ∙ ap (λ (n : P). applied_one p key (picked p m s.cluster key) (changed, n))
          (node-maybe_publish e p.kind key (lookup m key) (view s.cluster p.kind key) _))

  -- Publishing under one key changes nothing under another.
  view-tick_key_other :
      (p : Provider P) (m : Dict Record) (key : Text) (changed : List Text) (s : St P C) (j : Text)
      → IsProper p.kind m
      → same key j ≡ false
      → view (tick_key e p m key changed s).1.cluster p.kind j ≡ view s.cluster p.kind j
  view-tick_key_other p m key changed s j proper ne =
      tick_key-merged_at e view L reliable p m key changed s p.kind j proper
      ∙ rw (same_refl p.kind, ne)

  side-tick_keys :
      (p : Provider P) (m : Dict Record) (best : Text → Option Record) (ks changed : List Text)
      (s : St P C)
      → IsProper p.kind m
      → Distinct ks
      → ((key : Text) → contains ks key ≡ true → picked p m s.cluster key ≡ best key)
      → side e (tick_keys e p m ks changed s) ≡ apply_all p best ks (changed, s.node)
  unfolding tick_keys contains
  side-tick_keys p m best [] changed s proper d h = refl
  side-tick_keys p m best (key ∷ ks) changed s proper (fresh, d) h =
      side-tick_keys p m best ks _ (tick_key e p m key changed s).1 proper d (λ j listed.
        ap (pick_newer (lookup m j))
          (view-tick_key_other p m key changed s j proper (other j listed))
        ∙ h j (rw listed (ground arith)))
      ∙ ap (apply_all p best ks) (
          side-tick_key p m key changed s
          ∙ ap (λ (o : Option Record). applied_one p key o (changed, s.node))
              (h key (rw (same_refl key) refl)))
    where
      other : (j : Text) → contains ks j ≡ true → same key j ≡ false
      other j listed = elim (Bool-cases (same key j)) [
        | inr ne ↦ ne
        | inl eq ↦ absurd (cc (fresh, rw (← (same_iff key j).0 eq) at listed))
      ]

  node-gathered :
      (p : Provider P) (s : St P C) (ks : List Text)
      → apply_all p
          (picked p (locals_of p s.node) s.cluster)
          ks
          ([], (gathered e view L reliable p s).1.node)
        ≡ apply_all p (picked p (locals_of p s.node) s.cluster) ks ([], (p.local s.node).1)
  unfolding gather_keys
  node-gathered p s ks = refl

  -- What a tick does to its node, over a lawful cluster whose writes succeed, with a provider that gives
  -- records of its kind: for each key that it visits, it applies to the node the newer of the node's
  -- record and the record that the cluster held when the tick began; then, if any of them reported a
  -- change, it flushes, and if the flush fails, rolls back exactly the keys that reported one, in their
  -- order. A range visits exactly the keys of a map.
  pub node-tick_provider :
      (p : Provider P) (s : St P C)
      → ((ks : List Text) (k : Text) → contains (e.range_order ks) k ≡ contains ks k)
      → ((r : Record) → Mentions (or_empty (p.local s.node).0) r → r.kind ≡ p.kind)
      → let keys = (gather_keys e p (record s { readings = suc s.readings })).0.1 in
        (tick_provider e p s).node
        ≡ flushed p
            (apply_all p (picked p (locals_of p s.node) s.cluster) keys ([], (p.local s.node).1))
  unfolding tick_provider
  node-tick_provider p s order kinds =
      let found = gathered e view L reliable p s in
      let distinct = gather_keys-union e p (record s { readings = suc s.readings }) order in
      node-report_duration e p.kind _ _
      ∙ node-settle e p _ _
      ∙ ap (flushed p) (
          side-tick_keys p found.0.0 (picked p (locals_of p s.node) s.cluster) found.0.1 [] found.1
            (gathered-IsProper e view L reliable p s kinds) distinct.0
            (λ key listed.
              rw
                (
                  view-gathered e view L reliable p s p.kind key,
                  gathered-locals_of e view L reliable p s,
                )
                refl)
          ∙ node-gathered p s found.0.1)
