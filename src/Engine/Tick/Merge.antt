-- ===== src/Engine/Tick/Merge.antt =====
-- What a tick of internal/engine/engine.go does to the cluster, if its writes succeed.
use mathlib.Core.Path.{subst₂}
use lbsync.Prelude.{
  is_some, ◌||◌, suc, ℤ, Bool-cases, inl, inr, refl, ap, sym, ◌∙◌, ◌≡◌, Text, same, same_iff,
  contains, Distinct, Bool, Option, none, some, ok, true, false, ◌&&◌, List, [], ◌∷◌, arith,
  if◌then◌else◌,
}
use lbsync.Prelude.Dict.{Dict, lookup}
use lbsync.Engine.{Record, Provider, Engine, St, pick_newer, report}
use lbsync.Engine.Store.{IsStore}
use lbsync.Engine.Gather.{gather_keys, or_empty, locals_of}
use lbsync.Engine.Gather.Union.{Mentions, gather_keys-union, gather_keys-local}
use lbsync.Engine.Publish.{maybe_publish, publish, recheck, put_record}
use lbsync.Engine.Publish.Merge.{maybe_publish-merged}
use lbsync.Engine.Tick.{
  apply_best, report_applied, tick_key, tick_keys, settle, report_duration, tick_provider,
}

-- What a provider's state is after it applied what was picked, if anything was.
abbrev pub applied : {P : Type 0} → Provider P → Option Record → P → P
applied p none node = node
applied p (some r) node = (p.apply r node).1

-- The records that a provider gives bear its kind and their own key.
abbrev pub IsProper : Text → Dict Record → Type 0
IsProper kind m = (k : Text) (r : Record) → lookup m k ≡ some r → (r.kind ≡ kind) × (r.key ≡ k)

module _ {P C : Type 0} (e : Engine P C) where
  pub cluster-apply_best :
      (p : Provider P) (key : Text) (best : Option Record) (changed : List Text) (s : St P C)
      → ((apply_best e p key best changed s).1.cluster ≡ s.cluster)
        × ((apply_best e p key best changed s).1.node ≡ applied p best s.node)
  unfolding apply_best report_applied
  cluster-apply_best p key none changed s = (refl, refl)
  cluster-apply_best p key (some best) changed s = ground arith

  pub node-maybe_publish :
      (kind key : Text) (local c : Option Record) (s : St P C)
      → (maybe_publish e kind key local c s).node ≡ s.node
  unfolding maybe_publish publish recheck put_record report
  node-maybe_publish kind key none c s = refl
  node-maybe_publish kind key (some l) none s = ground arith
  node-maybe_publish kind key (some l) (some r) s = ground arith

  pub cluster-settle :
      (p : Provider P) (changed : List Text) (s : St P C)
      → (settle e p changed s).cluster ≡ s.cluster
  unfolding settle report
  cluster-settle p [] s = refl
  cluster-settle p (k ∷ ks) s = ground arith

  pub cluster-report_duration :
      (k : Text) (n : ℤ) (s : St P C) → (report_duration e k n s).cluster ≡ s.cluster
  unfolding report_duration
  cluster-report_duration k n s = ground arith

-- What stands at (k, j) after `local` was merged at (kind, key).
abbrev pub merged_at : Text → Text → Option Record → Text → Text → Option Record → Option Record
merged_at kind key local k j old = if same kind k && same key j then pick_newer local old else old

merged_at-none : (kind key k j : Text) (old : Option Record) → merged_at kind key none k j old ≡ old
unfolding pick_newer
merged_at-none kind key k j old = elim (Bool-cases (same kind k && same key j)) [
  | inl h ↦ rw h
  | inr h ↦ rw h
]

-- What is not listed is not there.
unlisted :
    (b listed c : Bool) (local old : Option Record)
    → listed ≡ (is_some local || c)
    → (if b && listed then pick_newer local old else old)
      ≡ (if b then pick_newer local old else old)
unlisted false listed c local old h = refl
unlisted true listed c none old h =
    unfold pick_newer in elim (Bool-cases listed) [ inl h ↦ rw h | inr h ↦ rw h ]
unlisted true listed c (some l) old h = rw h

-- One more key after the first, at the places under them.
merged_keys :
    (kind : Text) (m : Dict Record) (key : Text) (ks : List Text) (k j : Text) (old : Option Record)
    → contains ks key ≡ false
    → (if same kind k && contains ks j
        then pick_newer (lookup m j) (merged_at kind key (lookup m key) k j old)
        else merged_at kind key (lookup m key) k j old)
      ≡ (if same kind k && contains (key ∷ ks) j then pick_newer (lookup m j) old else old)
unfolding contains
merged_keys kind m key ks k j old fresh = elim (Bool-cases (same kind k)) [
  | inr h ↦ rw h
  | inl h ↦ elim (Bool-cases (same key j)) [
    | inr n ↦ rw (h, n)
    | inl n ↦
        let e = (same_iff key j).0 n in
        rw (h, n, ap (contains ks) (sym e) ∙ fresh)
          (ap (λ (x : Text). pick_newer (lookup m x) old) e)
  ]
]

module _ {P C : Type 0} (e : Engine P C) (view : C → Text → Text → Option Record)
    (L : IsStore e.cluster view)
    (reliable : (r : Record) (c : C) → (e.cluster.put r c).0 ≡ ok tt) where
  maybe_publish-merged_at :
      (kind key : Text) (local c : Option Record) (s : St P C) (k j : Text)
      → ((l : Record) → local ≡ some l → (l.kind ≡ kind) × (l.key ≡ key))
      → c ≡ view s.cluster kind key
      → view (maybe_publish e kind key local c s).cluster k j
        ≡ merged_at kind key local k j (view s.cluster k j)
  maybe_publish-merged_at kind key none c s k j proper h =
      unfold maybe_publish in sym (merged_at-none kind key k j _)
  maybe_publish-merged_at kind key (some l) c s k j proper h =
      subst₂
        (λ kd ky.
          c ≡ view s.cluster kd ky
          → view (maybe_publish e kd ky (some l) c s).cluster k j
            ≡ merged_at kd ky (some l) k j (view s.cluster k j))
        (proper l refl).0 (proper l refl).1 (maybe_publish-merged e view L reliable l s k j c) h

  pub tick_key-merged_at :
      (p : Provider P) (m : Dict Record) (key : Text) (changed : List Text) (s : St P C)
      (k j : Text)
      → IsProper p.kind m
      → view (tick_key e p m key changed s).1.cluster k j
        ≡ merged_at p.kind key (lookup m key) k j (view s.cluster k j)
  unfolding tick_key
  tick_key-merged_at p m key changed s k j proper = rw (L.get_eq p.kind key s.cluster) (
      ap (λ (c : C). view c k j) (cluster-apply_best e p key _ changed _).0
      ∙ maybe_publish-merged_at p.kind key (lookup m key) _ _ k j (proper key)
          (sym (L.view-get p.kind key s.cluster p.kind key))
      ∙ ap (merged_at p.kind key (lookup m key) k j) (L.view-get p.kind key s.cluster k j))

  tick_keys-merged_at :
      (p : Provider P) (m : Dict Record) (ks changed : List Text) (s : St P C) (k j : Text)
      → IsProper p.kind m
      → Distinct ks
      → view (tick_keys e p m ks changed s).1.cluster k j ≡ (
          if same p.kind k && contains ks j
          then pick_newer (lookup m j) (view s.cluster k j)
          else view s.cluster k j)
  unfolding tick_keys contains
  tick_keys-merged_at p m [] changed s k j proper d = elim (Bool-cases (same p.kind k)) [
    | inl h ↦ rw h
    | inr h ↦ rw h
  ]
  tick_keys-merged_at p m (key ∷ ks) changed s k j proper d =
      tick_keys-merged_at p m ks _ (tick_key e p m key changed s).1 k j proper d.1
      ∙ rw (tick_key-merged_at p m key changed s k j proper) (merged_keys p.kind m key ks k j _ d.0)

  -- The state in which a tick visits the keys, and the records that it found on the node.
  abbrev pub gathered : Provider P → St P C → (Dict Record × List Text) × St P C
  gathered p s = gather_keys e p (record s { readings = suc s.readings })

  pub gathered-IsProper :
      (p : Provider P) (s : St P C)
      → ((r : Record) → Mentions (or_empty (p.local s.node).0) r → r.kind ≡ p.kind)
      → IsProper p.kind (gathered p s).0.0
  gathered-IsProper p s kinds k r h =
      let (key, given) = gather_keys-local e p (record s { readings = suc s.readings }) k r h in
      (kinds r given, key)

  pub view-gathered :
      (p : Provider P) (s : St P C) (k j : Text)
      → view (gathered p s).1.cluster k j ≡ view s.cluster k j
  unfolding gather_keys
  view-gathered p s k j = L.view-keys p.kind s.cluster k j

  pub gathered-locals_of : (p : Provider P) (s : St P C) → (gathered p s).0.0 ≡ locals_of p s.node
  unfolding gather_keys
  gathered-locals_of p s = refl

  -- A tick over a lawful cluster whose writes succeed leaves it, under every key of the provider's
  -- kind, with the newer of this node's record and the record that stood there (which stays if
  -- neither is newer), and all else as it was. The records of the provider bear its kind, and a range
  -- visits exactly the keys of a map.
  pub tick_provider-merged :
      (p : Provider P) (s : St P C)
      → ((ks : List Text) (k : Text) → contains (e.range_order ks) k ≡ contains ks k)
      → ((r : Record) → Mentions (or_empty (p.local s.node).0) r → r.kind ≡ p.kind)
      → (k j : Text)
      → view (tick_provider e p s).cluster k j ≡ (
          if same p.kind k
          then pick_newer (lookup (locals_of p s.node) j) (view s.cluster k j)
          else view s.cluster k j)
  unfolding tick_provider
  tick_provider-merged p s order kinds k j =
      let found = gather_keys-union e p (record s { readings = suc s.readings }) order in
      ap (λ (c : C). view c k j) (cluster-report_duration e p.kind _ _ ∙ cluster-settle e p _ _)
      ∙ tick_keys-merged_at p (gathered p s).0.0 (gathered p s).0.1 [] (gathered p s).1 k j
          (gathered-IsProper p s kinds) found.0
      ∙ rw (view-gathered p s k j, ← gathered-locals_of p s)
          (unlisted (same p.kind k) _ _ (lookup (gathered p s).0.0 j) _ (found.1 j))
