-- ===== src/Cluster/Plain/Store.antt =====
-- internal/cluster/cluster.go as the cluster that internal/engine/engine.go relies on.
use lbsync.Prelude.{
  ◌≡◌, ◌∙◌, ◌⊎◌, refl, ap, ◌&&◌, Text, text, same, same-sym, contains, Bool-cases, inl, inr, Option,
  none, some, ◌++◌, ok,
}
use lbsync.Prelude.Steps.{bind_ok}
use lbsync.Engine.{Record}
use lbsync.Engine.Store.Guarded.{Keeps, IsStoreOn}
use lbsync.Engine.Store
use lbsync.Wan.{Codec}
use lbsync.Wan.Facade.{ReadsBack}
use lbsync.Wan.Handler.{decoded, decoded_ok}
use lbsync.Cluster.{
  Olric, Cluster, index_key, open_dmap, opened, record_in, read_record, get, put, olric_cluster,
  keys, members, lock,
}
use lbsync.Cluster.Laws.{IsOlric, view-open_dmap}
use lbsync.Cluster.Index.{ReadsKeys}
use lbsync.Cluster.Put.{held_record, held-written, put-PutAt}
use lbsync.Cluster.Read.{view-get}
use lbsync.Cluster.Plain.{
  Answers, answer_of, Plain, PlainPlace, Alike, Alike-keys, Alike-members, Alike-lock,
  Alike-release,
}
use lbsync.Cluster.Plain.Write.{Change, put-Change}

module _ (codec : Codec) {O : Type 0} (olric : Olric O) (view : O → Text → Text → Option Text)
    (L : IsOlric olric view) (A : Answers olric view) where
  -- Bytes that stand for a record, if there are any.
  unfoldable pub Readable : Option Text → Type 0
  Readable none = Unit {0}
  Readable (some raw) = (r : Record) × (codec.decode_record raw ≡ ok r)

  -- Every record under a plain key can be read.
  abbrev pub Valid : Cluster O → Type 0
  Valid c = (k j : Text) → Plain j → Readable (view c.db k j)

  abbrev held : Cluster O → Text → Text → Option Record
  held = held_record codec olric view L

  Alike-Keeps :
      (c d : Cluster O) → Alike codec olric view L A c d → Valid c → Keeps held Valid PlainPlace c d
  Alike-Keeps c d alike valid = (
    λ k j plain. rw (alike k j plain) (valid k j plain),
    λ k j plain. ap (decoded codec) (alike k j plain),
  )

  record_in-Readable :
      (place : Text) (o : Option Text)
      → Readable o
      → record_in codec place (answer_of o) ≡ ok (decoded codec o)
  unfolding record_in Readable decoded
  record_in-Readable place none readable = refl
  record_in-Readable place (some raw) (r, h) = rw (h, record_in, decoded_ok codec raw r h)

  pub open_dmap_ok : (kind : Text) (c : Cluster O) → (open_dmap olric kind c).0 ≡ ok tt
  unfolding open_dmap opened
  open_dmap_ok kind c = elim (Bool-cases (contains c.dmaps kind)) [
    | inl h ↦ rw h
    | inr h ↦ rw (h, A.new_dmap_ok kind c.db)
  ]

  pub get_held :
      (kind key : Text) (c : Cluster O)
      → Valid c
      → Plain key
      → (get codec olric kind key c).0 ≡ ok (held c kind key)
  unfolding get read_record
  get_held kind key c valid plain =
      let c' = (open_dmap olric kind c).1 in
      let kept = view-open_dmap olric view L kind c kind key in
      rw
        (
          bind_ok (open_dmap olric kind) (λ _. read_record codec olric kind key) c tt
              (open_dmap_ok kind c),
          A.dm_get_eq kind key c'.db,
          kept,
        )
        (record_in-Readable (kind ++ (text "/" ++ key)) (view c.db kind key) (valid kind key plain))

  pub Change-Valid :
      (r : Record) (c d : Cluster O) → Change codec olric view L A r c d → Valid c → Valid d
  Change-Valid r c d change valid k j plain = elim (change k j plain) [
    | inr kept ↦ rw kept (valid k j plain)
    | inl (raw, good, w) ↦ rw w (elim (Bool-cases (same r.kind k && same r.key j)) [
      | inl m ↦ rw m (unfold Readable in (r, good))
      | inr m ↦ rw m (valid k j plain)
    ])
  ]

  held-Change :
      (r : Record) (c d : Cluster O) (k j : Text)
      → Change codec olric view L A r c d
      → Plain j
      → (held d k j ≡ Store.written r k j (held c k j)) ⊎ (held d k j ≡ held c k j)
  held-Change r c d k j change plain = elim (change k j plain) [
    | inl (raw, good, w) ↦
        inl (ap (decoded codec) w ∙ held-written codec olric view L r raw k j (view c.db k j) good)
    | inr kept ↦ inr (ap (decoded codec) kept)
  ]

  -- Over maps that can be reached and behave as documented, and with a codec that reads back what it
  -- wrote, the cluster is a map of records under the keys that are not reserved, as the engine relies
  -- on: locks and the index of keys do not touch these records, and a put that fails part of the way,
  -- as when the record is stored and its key is not listed, leaves the old record or the new one.
  pub olric_cluster-IsStoreOn :
      ReadsKeys codec
      → ReadsBack codec
      → IsStoreOn (olric_cluster codec olric) held Valid PlainPlace
  unfolding olric_cluster
  olric_cluster-IsStoreOn law back = record {
    get_eq = λ k j c valid plain. get_held k j c valid plain;
    get-Keeps = λ k j c valid.
        Alike-Keeps c (get codec olric k j c).1
          (λ k' j' plain. view-get codec olric view L k j c k' j') valid;
    keys-Keeps =
        λ k c. Alike-Keeps c (keys codec olric k c).1 (Alike-keys codec olric view L A k c);
    members-Keeps = λ c. Alike-Keeps c (members olric c).1 (Alike-members codec olric view L A c);
    lock-Keeps = λ k j ttl c.
        Alike-Keeps c (lock olric k j ttl c).1 (Alike-lock codec olric view L A k j ttl c);
    release-Keeps = λ k j ttl c d release h.
        Alike-Keeps d (release d) (Alike-release codec olric view L A k j ttl c d release h);
    put-Valid = λ r c valid plain.
        Change-Valid r c (put codec olric r c).1 (put-Change codec olric view L A r c back) valid;
    view-put = λ r c k j valid own plain done.
        (put-PutAt codec olric view L r c k j law back (same-sym index_key r.key ∙ own.0) plain.0
          plain.1 done).0;
    view-put_failed = λ r c k j valid own plain.
        held-Change r c (put codec olric r c).1 k j (put-Change codec olric view L A r c back)
          plain;
  }
