-- ===== src/Cluster/Put.antt =====
-- What `Put` of internal/cluster/cluster.go leaves in the maps: the record, and its key in the index.
use mathlib.Core.Path.{subst}
use lbsync.Prelude.{
  ◌≡◌, ◌∙◌, refl, ap, Text, text, same, contains, Bool-cases, inl, inr, false, ◌&&◌, ◌||◌, Option,
  some, ◌++◌, ok, if◌then◌else◌,
}
use lbsync.Prelude.Steps.{◌>>=◌, lift, or_wrap, bind-eq-ok}
use lbsync.Engine.{Record}
use lbsync.Wan.{Codec}
use lbsync.Wan.Facade.{ReadsBack}
use lbsync.Wan.Handler.{decoded, decoded_ok}
use lbsync.Cluster.{
  Olric, Cluster, on_db, open_dmap, index_key, index_lock_key, add_to_index, put_raw, put,
}
use lbsync.Cluster.Laws.{written, IsOlric, listed, Decodes, view-open_dmap}
use lbsync.Cluster.Index.{
  ReadsKeys, index_of, IndexDecodes, put_bytes-written, written-other, add_to_index-locked,
}

module _ (codec : Codec) {O : Type 0} (olric : Olric O) (view : O → Text → Text → Option Text)
    (L : IsOlric olric view) where
  -- The record that is held.
  abbrev pub held_record : Cluster O → Text → Text → Option Record
  held_record c k j = decoded codec (view c.db k j)

  -- What the maps hold after `r` was put. The index of its kind could be decoded, and can be.
  abbrev pub PutAt : Record → Cluster O → Cluster O → Text → Text → Type 0
  PutAt r c d k j =
      (held_record d k j ≡ (if same r.kind k && same r.key j then some r else held_record c k j))
      × (contains (index_of codec olric view L d r.kind) j
          ≡ (contains (index_of codec olric view L c r.kind) j || same r.key j))
      × IndexDecodes codec olric view L c r.kind
      × IndexDecodes codec olric view L d r.kind

  pub held-written :
      (r : Record) (raw : Text) (k j : Text) (old : Option Text)
      → codec.decode_record raw ≡ ok r
      → decoded codec (written r.kind r.key raw k j old)
        ≡ (if same r.kind k && same r.key j then some r else decoded codec old)
  held-written r raw k j old h = elim (Bool-cases (same r.kind k && same r.key j)) [
    | inl t ↦ rw t (decoded_ok codec raw r h)
    | inr f ↦ rw f
  ]

  put_raw-PutAt :
      (r : Record) (raw : Text) (c : Cluster O) (k j : Text)
      → ReadsKeys codec
      → codec.decode_record raw ≡ ok r
      → same r.key index_key ≡ false
      → same index_key j ≡ false
      → same index_lock_key j ≡ false
      → (put_raw codec olric r raw c).0 ≡ ok tt
      → PutAt r c (put_raw codec olric r raw c).1 k j
  unfolding put_raw
  put_raw-PutAt r raw c k j law dec ri ji jl h =
      let what = text "put " ++ (r.kind ++ (text "/" ++ r.key)) in
      let first = or_wrap what (on_db (olric.dm_put r.kind r.key raw)) in
      let (u, stored, done, end) =
        bind-eq-ok first (λ _. add_to_index codec olric r.kind r.key) c tt h in
      let c' = (first c).1 in
      let there = λ (k' j' : Text).
        put_bytes-written codec olric view L what r.kind r.key raw c k' j' stored in
      let (lists, others, could, can) =
        add_to_index-locked codec olric view L r.kind r.key c' _ law refl done in
      let index_kept =
        there r.kind index_key
        ∙ written-other codec olric view L r.kind r.key raw r.kind index_key _ ri in
      rw end (
        ap (decoded codec) (others k j ji jl ∙ there k j) ∙ held-written r raw k j _ dec,
        lists j ∙ ap (λ (o : Option Text). contains (listed codec o) j || same r.key j) index_kept,
        subst (Decodes codec) index_kept could,
        can,
      )

  -- A put that succeeds: the maps hold the record at its kind and key and elsewhere what they held,
  -- and the index of its kind lists its key and what it listed before. This is so for keys that are
  -- not reserved; the maps behave as documented, and the codec reads back what it wrote.
  pub put-PutAt :
      (r : Record) (c : Cluster O) (k j : Text)
      → ReadsKeys codec
      → ReadsBack codec
      → same r.key index_key ≡ false
      → same index_key j ≡ false
      → same index_lock_key j ≡ false
      → (put codec olric r c).0 ≡ ok tt
      → PutAt r c (put codec olric r c).1 k j
  unfolding put
  put-PutAt r c k j law back ri ji jl h =
      let (u, opened, more, end) =
        bind-eq-ok (open_dmap olric r.kind)
          (λ _. lift (codec.encode_record r) >>= put_raw codec olric r) c tt h in
      let c' = (open_dmap olric r.kind c).1 in
      let (raw, enc, done, end') =
        bind-eq-ok (lift (codec.encode_record r)) (put_raw codec olric r) c' tt more in
      let (held, lists, could, can) =
        put_raw-PutAt r raw c' k j law (back r raw enc) ri ji jl done in
      let kept = view-open_dmap olric view L r.kind c in
      rw (end, end')
        (
          held
              ∙ ap
                  (λ (o : Option Text).
                    if same r.kind k && same r.key j then some r else decoded codec o)
                  (kept k j),
          lists
              ∙ ap (λ (o : Option Text). contains (listed codec o) j || same r.key j)
                  (kept r.kind index_key),
          subst (Decodes codec) (kept r.kind index_key) could,
          can,
        )
