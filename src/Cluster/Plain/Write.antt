-- ===== src/Cluster/Plain/Write.antt =====
-- What `Put` of internal/cluster/cluster.go leaves under the plain keys, whether or not it succeeds.
use lbsync.Prelude.{◌≡◌, ◌∙◌, ◌⊎◌, refl, ap, Text, text, Option, inl, inr, ◌++◌, ok}
use lbsync.Prelude.Steps.{Steps, ◌>>=◌, lift, or_wrap, or_wrap-state, bind_elim}
use lbsync.Engine.{Record}
use lbsync.Wan.{Codec}
use lbsync.Wan.Facade.{ReadsBack}
use lbsync.Cluster.{Olric, Cluster, on_db, open_dmap, add_to_index, put_raw, put}
use lbsync.Cluster.Laws.{written, IsOlric}
use lbsync.Cluster.Plain.{Answers, Plain, Alike, Alike-open_dmap, Alike-add_to_index}

module _ (codec : Codec) {O : Type 0} (olric : Olric O) (view : O → Text → Text → Option Text)
    (L : IsOlric olric view) (A : Answers olric view) where
  -- Under a plain key stands what stood there, or, at the place of `r`, bytes that stand for `r`.
  abbrev pub Change : Record → Cluster O → Cluster O → Type 0
  Change r c d =
      (k j : Text)
      → Plain j
      → ((raw : Text) × (codec.decode_record raw ≡ ok r)
          × (view d.db k j ≡ written r.kind r.key raw k j (view c.db k j)))
        ⊎ (view d.db k j ≡ view c.db k j)

  Change-between :
      (r : Record) (c c' d d' : Cluster O)
      → Alike codec olric view L A c c'
      → Alike codec olric view L A d d'
      → Change r c' d
      → Change r c d'
  Change-between r c c' d d' before after change k j plain = elim (change k j plain) [
    | inl (raw, good, w) ↦
        inl (raw, good, after k j plain ∙ w ∙ ap (written r.kind r.key raw k j) (before k j plain))
    | inr kept ↦ inr (after k j plain ∙ kept ∙ before k j plain)
  ]

  -- The put of the bytes.
  abbrev storing : Record → Text → Steps (Cluster O) (Unit {0})
  storing r raw =
      or_wrap (text "put " ++ (r.kind ++ (text "/" ++ r.key)))
        (on_db (olric.dm_put r.kind r.key raw))

  storing-Change :
      (r : Record) (raw : Text) (c : Cluster O)
      → codec.decode_record raw ≡ ok r
      → Change r c (storing r raw c).1
  storing-Change r raw c good k j plain =
      let end =
        ap (λ (d : Cluster O). view d.db k j)
          (or_wrap-state (text "put " ++ (r.kind ++ (text "/" ++ r.key)))
            (on_db (olric.dm_put r.kind r.key raw)) c) in
      elim (A.view-dm_put r.kind r.key raw c.db k j) [
        | inl w ↦ inl (raw, good, end ∙ w)
        | inr kept ↦ inr (end ∙ kept)
      ]

  put_raw-Change :
      (r : Record) (raw : Text) (c : Cluster O)
      → codec.decode_record raw ≡ ok r
      → Change r c (put_raw codec olric r raw c).1
  unfolding put_raw
  put_raw-Change r raw c good =
      let stored = storing-Change r raw c good in
      let c' = (storing r raw c).1 in
      bind_elim (λ x. Change r c x.1) (storing r raw) (λ _. add_to_index codec olric r.kind r.key) c
        (λ u h.
          Change-between r c c c' (add_to_index codec olric r.kind r.key c').1 (λ k j plain. refl)
            (Alike-add_to_index codec olric view L A r.kind r.key c' _ refl) stored)
        (λ e h. stored)

  pub put-Change :
      (r : Record) (c : Cluster O) → ReadsBack codec → Change r c (put codec olric r c).1
  unfolding put
  put-Change r c back =
      let opening = Alike-open_dmap codec olric view L A r.kind c in
      let c' = (open_dmap olric r.kind c).1 in
      let more = lift (codec.encode_record r) >>= put_raw codec olric r in
      bind_elim (λ x. Change r c x.1) (open_dmap olric r.kind) (λ _. more) c
        (λ u h.
          bind_elim (λ x. Change r c x.1) (lift (codec.encode_record r)) (put_raw codec olric r) c'
            (λ raw enc.
              Change-between r c c' (put_raw codec olric r raw c').1
                (put_raw codec olric r raw c').1 opening (λ k j plain. refl)
                (put_raw-Change r raw c' (back r raw enc)))
            (λ e h'. λ k j plain. inr (opening k j plain)))
        (λ e h. λ k j plain. inr (opening k j plain))
