-- ===== src/Discovery/Merge.antt =====
-- What `mergeEntries` of internal/discovery/discovery.go keeps, and in which order.
use lbsync.Prelude.{
  ◌≡◌, ◌∙◌, refl, ap, arith, inl, inr, Text, same, same_iff, same_refl, less, less_irrefl,
  less_trans, less_connex, contains, Distinct, Bool, Bool-cases, true, false, not, ◌&&◌, ◌||◌, List,
  [], ◌∷◌, is_some, if◌then◌else◌,
}
use lbsync.Prelude.Sorting.{insert_by, sort_by, Sorted, sort_by-Sorted}
use lbsync.Discovery.{Entry, merge_from, entry_before, merge_entries}

-- The entry has a path and no error.
abbrev pub has_path : Entry → Bool
has_path e = not (is_some e.error || same e.cert.cert_path [])

-- The paths of those entries.
unfoldable pub paths : List Entry → List Text
paths [] = []
paths (e ∷ es) = let rest = paths es in if has_path e then e.cert.cert_path ∷ rest else rest

entry_before-asym : (a b : Entry) → entry_before a b ≡ true → entry_before b a ≡ false
entry_before-asym a b h = ground (
  arith,
  same_iff a.cert.fallback_id b.cert.fallback_id,
  same_iff b.cert.fallback_id a.cert.fallback_id,
  less_trans a.cert.fallback_id b.cert.fallback_id a.cert.fallback_id,
  less_irrefl a.cert.fallback_id,
  less_trans a.cert.cert_path b.cert.cert_path a.cert.cert_path,
  less_irrefl a.cert.cert_path,
)

-- Where neither of two comparisons holds, it does not hold across.
less_not_trans : (a b c : Text) → less c b ≡ false → less b a ≡ false → less c a ≡ false
less_not_trans a b c h k = ground (arith, less_trans b c a, less_connex b c)

entry_before-not_trans :
    (a b c : Entry) → entry_before c b ≡ false → entry_before b a ≡ false → entry_before c a ≡ false
entry_before-not_trans a b c h k = ground (
  arith,
  same_iff a.cert.fallback_id b.cert.fallback_id,
  same_iff b.cert.fallback_id a.cert.fallback_id,
  same_iff c.cert.fallback_id b.cert.fallback_id,
  same_iff c.cert.fallback_id a.cert.fallback_id,
  less_not_trans a.cert.fallback_id b.cert.fallback_id c.cert.fallback_id,
  less_connex a.cert.fallback_id b.cert.fallback_id,
  less_connex b.cert.fallback_id c.cert.fallback_id,
  less_not_trans a.cert.cert_path b.cert.cert_path c.cert.cert_path,
)

contains-insert_by :
    (e : Entry) (es : List Entry) (p : Text)
    → contains (paths (insert_by entry_before e es)) p ≡ contains (paths (e ∷ es)) p
unfolding contains paths insert_by
contains-insert_by e [] p = refl
contains-insert_by e (x ∷ es) p = elim (Bool-cases (entry_before x e)) [
  | inl h ↦ rw h (ground (arith, contains-insert_by e es p))
  | inr h ↦ rw h
]

Distinct-swap_first : (a b : Text) (ts : List Text) → Distinct (a ∷ b ∷ ts) → Distinct (b ∷ a ∷ ts)
unfolding contains
Distinct-swap_first a b ts (h, (k, d)) =
    (ground (arith, same_iff a b, same_iff b a), (ground arith, d))

Distinct-swap :
    (e x : Entry) (es : List Entry) → Distinct (paths (e ∷ x ∷ es)) → Distinct (paths (x ∷ e ∷ es))
unfolding contains paths
Distinct-swap e x es d = elim (Bool-cases (has_path e)) [
  | inl he ↦ elim (Bool-cases (has_path x)) [
    | inl hx ↦
        rw (he, hx)
          (Distinct-swap_first e.cert.cert_path x.cert.cert_path (paths es) (rw (he, hx) at d))
    | inr hx ↦ rw (he, hx) (rw (he, hx) at d)
  ]
  | inr he ↦ elim (Bool-cases (has_path x)) [
    | inl hx ↦ rw (he, hx) (rw (he, hx) at d)
    | inr hx ↦ rw (he, hx) (rw (he, hx) at d)
  ]
]

Distinct-insert_by :
    (e : Entry) (es : List Entry)
    → Distinct (paths (e ∷ es))
    → Distinct (paths (insert_by entry_before e es))
unfolding contains paths insert_by
Distinct-insert_by e [] d = d
Distinct-insert_by e (x ∷ es) d = elim (Bool-cases (entry_before x e)) [
  | inr h ↦ rw h d
  | inl h ↦
      let swapped = Distinct-swap e x es d in
      elim (Bool-cases (has_path x)) [
        | inl hx ↦
            let (fresh, rest) = rw hx at swapped in
            rw (h, hx)
              (contains-insert_by e es x.cert.cert_path ∙ fresh, Distinct-insert_by e es rest)
        | inr hx ↦ rw (h, hx) (Distinct-insert_by e es (rw hx at swapped))
      ]
]

contains-sort_by :
    (es : List Entry) (p : Text)
    → contains (paths (sort_by entry_before es)) p ≡ contains (paths es) p
unfolding sort_by paths contains
contains-sort_by [] p = refl
contains-sort_by (e ∷ es) p =
    contains-insert_by e (sort_by entry_before es) p ∙ ground (arith, contains-sort_by es p)

Distinct-sort_by :
    (es : List Entry) → Distinct (paths es) → Distinct (paths (sort_by entry_before es))
unfolding sort_by paths contains
Distinct-sort_by [] d = tt
Distinct-sort_by (e ∷ es) d =
    Distinct-insert_by e (sort_by entry_before es) (elim (Bool-cases (has_path e)) [
      | inl h ↦
          let (fresh, rest) = rw h at d in
          rw h (contains-sort_by es e.cert.cert_path ∙ fresh, Distinct-sort_by es rest)
      | inr h ↦ rw h (Distinct-sort_by es (rw h at d))
    ])

-- The paths that are kept are those that were not seen before.
contains-merge_from :
    (seen : List Text) (es : List Entry) (p : Text)
    → contains (paths (merge_from seen es)) p ≡ (contains (paths es) p && not (contains seen p))
unfolding contains paths merge_from
contains-merge_from seen [] p = refl
contains-merge_from seen (e ∷ es) p = ground (
  arith,
  contains-merge_from seen es p,
  contains-merge_from (e.cert.cert_path ∷ seen) es p,
  same_iff e.cert.cert_path p,
)

Distinct-merge_from : (seen : List Text) (es : List Entry) → Distinct (paths (merge_from seen es))
unfolding contains paths merge_from
Distinct-merge_from seen [] = tt
Distinct-merge_from seen (e ∷ es) =
    elim (Bool-cases (is_some e.error || same e.cert.cert_path [])) [
      | inl h ↦ rw (h, ap not h) (Distinct-merge_from seen es)
      | inr h ↦ elim (Bool-cases (contains seen e.cert.cert_path)) [
        | inl k ↦ rw (h, k) (Distinct-merge_from seen es)
        | inr k ↦
            rw (h, k, ap not h)
              (
                ground (
                  arith,
                  contains-merge_from (e.cert.cert_path ∷ seen) es e.cert.cert_path,
                  same_refl e.cert.cert_path,
                ),
                Distinct-merge_from (e.cert.cert_path ∷ seen) es,
              )
      ]
    ]

-- The merged entries are in the order of names and then of paths; no path occurs in two of them; and
-- the paths are those of the entries that were found without an error.
pub merge_entries-Sorted :
    (es : List Entry)
    → Sorted entry_before (merge_entries es)
      × Distinct (paths (merge_entries es))
      × ((p : Text) → contains (paths (merge_entries es)) p ≡ contains (paths es) p)
unfolding merge_entries
merge_entries-Sorted es = (
  sort_by-Sorted entry_before entry_before-asym entry_before-not_trans (merge_from [] es),
  Distinct-sort_by (merge_from [] es) (Distinct-merge_from [] es),
  λ p.
      contains-sort_by (merge_from [] es) p
      ∙ unfold contains in ground (arith, contains-merge_from [] es p),
)
