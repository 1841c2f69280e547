-- ===== src/Engine/Pick.antt =====
-- `pickNewer` of internal/engine/engine.go picks the greatest.
use lbsync.Prelude.{Bool-cases, inl, inr, refl, ◌≡◌, ◌⊎◌, Option, none, some, false}
use lbsync.Version.{newer}
use lbsync.Version.Order.{newer_irrefl, newer_asymm}
use lbsync.Engine.{Record, pick_newer}

-- `r` is not older than what `o` holds.
abbrev pub NotOlder : Record → Option Record → Type 0
NotOlder r none = Unit {0}
NotOlder r (some a) = newer a.version r.version ≡ false

-- What is picked is one of the two copies, and neither copy is newer than it. Nothing is picked
-- exactly when there is no copy.
pub pick_newer_lem :
    (a b : Option Record)
    → ((pick_newer a b ≡ none) × (a ≡ none) × (b ≡ none))
      ⊎ ((r : Record) × (pick_newer a b ≡ some r)
          × ((a ≡ some r) ⊎ (b ≡ some r))
          × NotOlder r a
          × NotOlder r b)
unfolding pick_newer
pick_newer_lem none none = inl (refl, refl, refl)
pick_newer_lem none (some b) = inr (b, refl, inr refl, tt, newer_irrefl b.version)
pick_newer_lem (some a) none = inr (a, refl, inl refl, newer_irrefl a.version, tt)
pick_newer_lem (some a) (some b) = elim (Bool-cases (newer a.version b.version)) [
  | inl h ↦ inr (a, rw h, inl refl, newer_irrefl a.version, newer_asymm a.version b.version h)
  | inr h ↦ inr (b, rw h, inr refl, h, newer_irrefl b.version)
]
