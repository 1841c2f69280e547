-- ===== src/Engine/Store/Advance.antt =====
-- When a record may replace another in the cluster of internal/engine/engine.go, and what it is for
-- the cluster to go on to newer records only.
use lbsync.Prelude.{
  Bool-cases, inl, inr, refl, ◌≡◌, ◌⊎◌, Text, same, same_iff, Option, none, some, true, false, ◌&&◌,
  arith,
}
use lbsync.Version.{Version, newer}
use lbsync.Version.Order.{newer_irrefl, newer_asymm, newer_trans, newer_connex}
use lbsync.Engine.{Record}
use lbsync.Engine.Store.{written}

-- `l` may replace what is there.
unfoldable pub Beats : Record → Option Record → Type 0
Beats l none = Unit {0}
Beats l (some r) = newer l.version r.version ≡ true

pub Beats-none : (l : Record) → Beats l none
unfolding Beats
Beats-none l = tt

pub Beats-some : (l r : Record) → newer l.version r.version ≡ true → Beats l (some r)
unfolding Beats
Beats-some l r h = h

-- What was there is still there, or something that is not older.
abbrev pub Advances : Option Record → Option Record → Type 0
Advances none new = Unit {0}
Advances (some r) new = (r' : Record) × (new ≡ some r') × (newer r.version r'.version ≡ false)

pub Advances-refl : (o : Option Record) → Advances o o
Advances-refl none = tt
Advances-refl (some r) = (r, refl, newer_irrefl r.version)

-- What is not newer than the second of two is not newer than the third, if the second is not newer
-- than the third.
older_trans : (a b c : Version) → newer a b ≡ false → newer b c ≡ false → newer a c ≡ false
older_trans a b c h k = elim (Bool-cases (newer a c)) [
  | inr n ↦ n
  | inl n ↦ elim (Bool-cases (newer b a)) [
    | inl m ↦ absurd (cc (newer_trans b a c m n))
    | inr m ↦ absurd (cc (newer_connex a b h m))
  ]
]

pub Advances-trans : (x y z : Option Record) → Advances x y → Advances y z → Advances x z
Advances-trans none y z first then = tt
Advances-trans (some r) none z (b, h, old) then = absurd (cc)
Advances-trans (some r) (some b) z (b', h, old) (c, e, old') =
    let same_b : b ≡ b' = cc in
    (c, e, older_trans r.version b.version c.version (rw same_b old) old')

pub Advances-written :
    (l : Record) (k j : Text) (old : Option Record)
    → Beats l old ⊎ (same l.kind k && same l.key j ≡ false)
    → Advances old (written l k j old)
unfolding Beats
Advances-written l k j none h = tt
Advances-written l k j (some r) h = elim (Bool-cases (same l.kind k && same l.key j)) [
  | inl m ↦ (l, rw m, ground (arith, newer_asymm l.version r.version))
  | inr m ↦ (r, rw m, newer_irrefl r.version)
]

pub Beats-here :
    (l : Record) (k j : Text) (at : Text → Text → Option Record)
    → Beats l (at l.kind l.key)
    → Beats l (at k j) ⊎ (same l.kind k && same l.key j ≡ false)
unfolding Beats
Beats-here l k j at b = elim (Bool-cases (same l.kind k)) [
  | inr m ↦ inr (rw m)
  | inl m ↦ elim (Bool-cases (same l.key j)) [
    | inr n ↦ inr (rw (m, n))
    | inl n ↦ inl (rw ((same_iff l.kind k).0 m, (same_iff l.key j).0 n) at b)
  ]
]

pub Beats-Advances : (r : Record) (o : Option Record) → Beats r o → Advances o (some r)
unfolding Beats
Beats-Advances r none h = tt
Beats-Advances r (some c) h = (r, refl, newer_asymm r.version c.version h)

-- What may replace a record may replace one that is not newer.
pub Beats-behind :
    (l : Record) (old found : Option Record) → Advances old found → Beats l found → Beats l old
unfolding Beats
Beats-behind l none found adv b = tt
Beats-behind l (some a) none (r, e, old) b = absurd (cc)
Beats-behind l (some a) (some c) (r, e, old) b = elim (Bool-cases (newer l.version a.version)) [
  | inl n ↦ n
  | inr n ↦
      let here : c ≡ r = cc in
      absurd (cc (b, older_trans l.version a.version c.version n (rw here old)))
]
