-- ===== src/Engine/Tick/Advance.antt =====
-- `Run` of internal/engine/engine.go: what its ticks leave in the cluster, whichever calls fail.
use mathlib.Core.Path.{subst₂}
use lbsync.Prelude.{
  ℕ, zero, suc, refl, Bool-cases, inl, inr, ◌≡◌, Text, Option, none, some, List, [], ◌∷◌, All,
}
use lbsync.Prelude.Dict.{Dict, lookup}
use lbsync.Engine.{Record, Provider, Engine, St}
use lbsync.Engine.Store.Guarded.{IsForward}
use lbsync.Engine.Gather.{gather_keys, or_empty}
use lbsync.Engine.Gather.Union.{Mentions, gather_keys-local}
use lbsync.Engine.Publish.{maybe_publish}
use lbsync.Engine.Store.Advance.{Advances}
use lbsync.Engine.Publish.Guarded.{Moves, Moves-refl, Moves-trans, Keeps-Moves, maybe_publish-Moves}
use lbsync.Engine.Tick.{
  record_of, tick_key, tick_keys, tick_provider, tick_providers, report_members, reconcile, run,
}
use lbsync.Engine.Tick.Merge.{cluster-apply_best, cluster-settle, cluster-report_duration}

-- Whatever its state, the provider gives records of its kind only, at plain places.
abbrev pub GivesPlain : {P : Type 0} → (Text → Text → Type 0) → Provider P → Type 0
GivesPlain {P} Plain p =
    (node : P) (r : Record)
    → Mentions (or_empty (p.local node).0) r
    → (r.kind ≡ p.kind) × Plain r.kind r.key

module _ {P C : Type 0} (e : Engine P C) (view : C → Text → Text → Option Record)
    (Valid : C → Type 0) (Plain : Text → Text → Type 0)
    (L : IsForward e.cluster view Valid Plain) where
  -- The records that were found on the node, each under its key.
  abbrev IsOwn : Text → Dict Record → Type 0
  IsOwn kind m =
      (k : Text) (r : Record)
      → lookup m k ≡ some r
      → (r.kind ≡ kind) × (r.key ≡ k) × Plain r.kind r.key

  abbrev ClusterMoves : St P C → St P C → Type 0
  ClusterMoves s t = Moves view Valid Plain s.cluster t.cluster

  published-Moves :
      (kind key : Text) (local c : Option Record) (s : St P C)
      → Valid s.cluster
      → ((l : Record) → local ≡ some l → (l.kind ≡ kind) × (l.key ≡ key) × Plain l.kind l.key)
      → ClusterMoves s (maybe_publish e kind key local c s)
  published-Moves kind key none c s v own =
      unfold maybe_publish in Moves-refl view Valid Plain s.cluster v
  published-Moves kind key (some l) c s v own =
      let (k, j, plain) = own l refl in
      subst₂ (λ kd ky. ClusterMoves s (maybe_publish e kd ky (some l) c s)) k j
        (maybe_publish-Moves e view Valid Plain L l c s v plain)

  abbrev got : Text → Text → St P C → St P C
  got kind key s = record s { cluster = (e.cluster.get kind key s.cluster).1 }

  tick_key-Moves :
      (p : Provider P) (m : Dict Record) (key : Text) (changed : List Text) (s : St P C)
      → Valid s.cluster
      → IsOwn p.kind m
      → ClusterMoves s (tick_key e p m key changed s).1
  unfolding tick_key
  tick_key-Moves p m key changed s v own =
      let read = L.get-Keeps p.kind key s.cluster v in
      let best = record_of e (e.cluster.get p.kind key s.cluster).0 in
      rw (cluster-apply_best e p key _ changed _).0 (
        Moves-trans view Valid Plain s.cluster (got p.kind key s).cluster _
          (Keeps-Moves view Valid Plain s.cluster (got p.kind key s).cluster read)
          (published-Moves p.kind key (lookup m key) best (got p.kind key s) read.0 (own key)))

  tick_keys-Moves :
      (p : Provider P) (m : Dict Record) (ks changed : List Text) (s : St P C)
      → Valid s.cluster
      → IsOwn p.kind m
      → ClusterMoves s (tick_keys e p m ks changed s).1
  unfolding tick_keys
  tick_keys-Moves p m [] changed s v own = Moves-refl view Valid Plain s.cluster v
  tick_keys-Moves p m (key ∷ ks) changed s v own =
      let one = tick_key-Moves p m key changed s v own in
      Moves-trans view Valid Plain s.cluster _ _ one (tick_keys-Moves p m ks _ _ one.0 own)

  abbrev begun : St P C → St P C
  begun s = record s { readings = suc s.readings }

  gathered-IsOwn :
      (p : Provider P) (s : St P C) → GivesPlain Plain p → IsOwn p.kind (gather_keys e p s).0.0
  gathered-IsOwn p s gives k r h =
      let (key, given) = gather_keys-local e p s k r h in
      let (kind, plain) = gives s.node r given in (kind, key, plain)

  gather_keys-Moves :
      (p : Provider P) (s : St P C) → Valid s.cluster → ClusterMoves s (gather_keys e p s).1
  unfolding gather_keys
  gather_keys-Moves p s v =
      Keeps-Moves view Valid Plain s.cluster _ (L.keys-Keeps p.kind s.cluster v)

  tick_provider-Moves :
      (p : Provider P) (s : St P C)
      → Valid s.cluster
      → GivesPlain Plain p
      → ClusterMoves s (tick_provider e p s)
  unfolding tick_provider
  tick_provider-Moves p s v gives =
      let found = gather_keys-Moves p (begun s) v in
      rw (cluster-report_duration e p.kind _ _, cluster-settle e p _ _)
        (Moves-trans view Valid Plain s.cluster _ _ found
          (tick_keys-Moves p _ _ [] _ found.0 (gathered-IsOwn p (begun s) gives)))

  tick_providers-Moves :
      (ps : List (Provider P)) (s : St P C)
      → Valid s.cluster
      → All (GivesPlain Plain) ps
      → ClusterMoves s (tick_providers e ps s)
  unfolding tick_providers
  tick_providers-Moves [] s v gives = Moves-refl view Valid Plain s.cluster v
  tick_providers-Moves (p ∷ ps) s v (one, more) =
      let first = tick_provider-Moves p s v one in
      Moves-trans view Valid Plain s.cluster _ _ first (tick_providers-Moves ps _ first.0 more)

  report_members-Moves : (s : St P C) → Valid s.cluster → ClusterMoves s (report_members e s)
  unfolding report_members
  report_members-Moves s v = elim (Bool-cases e.has_metrics) [
    | inl h ↦ rw h (Keeps-Moves view Valid Plain s.cluster _ (L.members-Keeps s.cluster v))
    | inr h ↦ rw h (Moves-refl view Valid Plain s.cluster v)
  ]

  pub reconcile-Moves :
      (s : St P C)
      → Valid s.cluster
      → All (GivesPlain Plain) e.providers
      → ClusterMoves s (reconcile e s)
  unfolding reconcile
  reconcile-Moves s v gives =
      let first = report_members-Moves s v in
      Moves-trans view Valid Plain s.cluster _ _ first
        (tick_providers-Moves e.providers _ first.0 gives)

  -- However many ticks Run makes, and whichever of its locks and writes fail, over a cluster whose Get
  -- never answers with less than what is held at a plain place, with providers that give records of their
  -- own kind at plain places only: the cluster stays valid, and no record that it held at a plain place is lost or replaced by an older
  -- one.
  pub run-Advances :
      (ticks : ℕ) (s : St P C)
      → Valid s.cluster
      → All (GivesPlain Plain) e.providers
      → Valid (run e ticks s).cluster
        × ((k j : Text)
            → Plain k j
            → Advances (view s.cluster k j) (view (run e ticks s).cluster k j))
  unfolding run
  run-Advances zero s v gives = reconcile-Moves s v gives
  run-Advances (suc ticks) s v gives =
      let first = reconcile-Moves s v gives in
      Moves-trans view Valid Plain s.cluster _ _ first (run-Advances ticks _ first.0 gives)
