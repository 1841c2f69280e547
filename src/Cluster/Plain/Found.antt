-- ===== src/Cluster/Plain/Found.antt =====
-- What `Get` and `Keys` of internal/cluster/cluster.go answer after a `Put`.
use lbsync.Prelude.{
  ◌≡◌, ◌∙◌, refl, ap, sym, Text, same, same-sym, contains, Bool-cases, inl, inr, ◌&&◌, ◌||◌, Option,
  none, some, List, ok, if◌then◌else◌,
}
use lbsync.Prelude.Steps.{bind_ok}
use lbsync.Engine.{Record}
use lbsync.Wan.{Codec}
use lbsync.Wan.Facade.{ReadsBack}
use lbsync.Cluster.{Olric, Cluster, index_key, open_dmap, keys_in, read_index, get, put, keys}
use lbsync.Cluster.Laws.{IsOlric, Decodes, listed, listed_ok, view-open_dmap}
use lbsync.Cluster.Index.{ReadsKeys, index_of, IndexDecodes}
use lbsync.Cluster.Put.{put-PutAt}
use lbsync.Cluster.Plain.{Answers, answer_of, Plain}
use lbsync.Cluster.Plain.Write.{put-Change}
use lbsync.Cluster.Plain.Store.{Valid, open_dmap_ok, get_held, Change-Valid}

module _ (codec : Codec) {O : Type 0} (olric : Olric O) (view : O → Text → Text → Option Text)
    (L : IsOlric olric view) (A : Answers olric view) where
  -- Get answers `r` at its place and elsewhere what it answered before; Keys of its kind answered a
  -- list before and answers one now, on which its key stands with those that stood there.
  abbrev pub FoundAfter : Record → Cluster O → Cluster O → Text → Text → Type 0
  FoundAfter r c d k j =
      ((get codec olric k j d).0
        ≡ (if same r.kind k && same r.key j then ok (some r) else (get codec olric k j c).0))
      × (before : List Text) × (after : List Text) × ((keys codec olric r.kind c).0 ≡ ok before)
      × ((keys codec olric r.kind d).0 ≡ ok after)
      × (contains after j ≡ (contains before j || same r.key j))

  keys_in-Decodes :
      (o : Option Text) → Decodes codec o → keys_in codec (answer_of o) ≡ ok (listed codec o)
  unfolding keys_in Decodes listed
  keys_in-Decodes none can = refl
  keys_in-Decodes (some raw) (ks, h) = h ∙ sym (ap ok (listed_ok codec raw ks h))

  keys_listed :
      (kind : Text) (c : Cluster O)
      → IndexDecodes codec olric view L c kind
      → (keys codec olric kind c).0 ≡ ok (index_of codec olric view L c kind)
  unfolding keys read_index
  keys_listed kind c can =
      let c' = (open_dmap olric kind c).1 in
      rw
        (
          bind_ok (open_dmap olric kind) (λ _. read_index codec olric kind) c tt
              (open_dmap_ok codec olric view L A kind c),
          read_index,
          A.dm_get_eq kind index_key c'.db,
          view-open_dmap olric view L kind c kind index_key,
        )
        (keys_in-Decodes (view c.db kind index_key) can)

  -- A put that succeeds, of a record under a key that is not reserved: afterwards Get answers that
  -- record at its kind and key, and at every other place that is not reserved what it answered before;
  -- of the keys that are not reserved, Keys of its kind answers its key and those that it answered
  -- before, and no other. Every record under a key that is not reserved can be decoded before; the maps
  -- can be reached and behave as documented, and the codec reads back what it wrote.
  pub put-FoundAfter :
      (r : Record) (c : Cluster O) (k j : Text)
      → ReadsKeys codec
      → ReadsBack codec
      → Valid codec olric view L A c
      → Plain r.key
      → Plain j
      → (put codec olric r c).0 ≡ ok tt
      → FoundAfter r c (put codec olric r c).1 k j
  put-FoundAfter r c k j law back valid own plain done =
      let d = (put codec olric r c).1 in
      let (held, lists, could, can) =
        put-PutAt codec olric view L r c k j law back (same-sym index_key r.key ∙ own.0) plain.0
          plain.1 done in
      let valid' =
        Change-Valid codec olric view L A r c d (put-Change codec olric view L A r c back) valid in
      (
        get_held codec olric view L A k j d valid' plain
            ∙ ap ok held
            ∙ elim (Bool-cases (same r.kind k && same r.key j)) [
              | inl t ↦ rw t refl
              | inr f ↦ rw f (sym (get_held codec olric view L A k j c valid plain))
            ],
        index_of codec olric view L c r.kind,
        index_of codec olric view L d r.kind,
        keys_listed r.kind c could,
        keys_listed r.kind d can,
        lists,
      )
