-- ===== src/Cluster/Index.antt =====
-- What `addToIndex` of internal/cluster/cluster.go leaves in the index of a kind.
use mathlib.Core.Path.{subst}
use lbsync.Prelude.{
  ◌≡◌, ◌∙◌, refl, sym, ap, Text, text, same, same_iff, same_refl, contains, contains-append,
  Bool-cases, inl, inr, true, false, ◌||◌, Option, some, List, [], ◌∷◌, ◌++◌, Result, ok, err,
  arith,
}
use lbsync.Prelude.Steps.{lift, or_wrap, bind-eq-ok, or_wrap-eq-ok, or_wrap-state}
use lbsync.Engine.{seconds}
use lbsync.Wan.{Codec}
use lbsync.Cluster.{
  Olric, Cluster, on_db, index_key, index_lock_key, read_index, write_index, extend_index,
  update_index, add_to_index,
}
use lbsync.Cluster.Laws.{
  written, IsOlric, listed, listed_ok, Decodes, view-read_index, read_index-listed,
  read_index-Decodes,
}

-- Decode of internal/gobcodec reads back the lists of keys that Encode wrote.
abbrev pub ReadsKeys : Codec → Type 0
ReadsKeys codec =
    (ks : List Text) (raw : Text)
    → codec.encode_strings ks ≡ ok raw
    → codec.decode_strings raw ≡ ok ks

module _ (codec : Codec) {O : Type 0} (olric : Olric O) (view : O → Text → Text → Option Text)
    (L : IsOlric olric view) where
  -- The keys that the index of a kind lists.
  abbrev pub index_of : Cluster O → Text → List Text
  index_of c kind = listed codec (view c.db kind index_key)

  -- A put of bytes that succeeds.
  pub put_bytes-written :
      (what k j raw : Text) (c : Cluster O) (k' j' : Text)
      → (or_wrap what (on_db (olric.dm_put k j raw)) c).0 ≡ ok tt
      → view (or_wrap what (on_db (olric.dm_put k j raw)) c).1.db k' j'
        ≡ written k j raw k' j' (view c.db k' j')
  put_bytes-written what k j raw c k' j' h =
      ap (λ (d : Cluster O). view d.db k' j') (or_wrap-state what (on_db (olric.dm_put k j raw)) c)
      ∙ L.view-put k j raw c.db k' j' (or_wrap-eq-ok what (on_db (olric.dm_put k j raw)) c tt h)

  write_index-written :
      (kind : Text) (ks : List Text) (c : Cluster O)
      → (write_index codec olric kind ks c).0 ≡ ok tt
      → (raw : Text) × (codec.encode_strings ks ≡ ok raw)
        × ((k' j' : Text)
            → view (write_index codec olric kind ks c).1.db k' j'
              ≡ written kind index_key raw k' j' (view c.db k' j'))
  unfolding write_index
  write_index-written kind ks c h =
      let (raw, enc, done, end) =
        bind-eq-ok (lift (codec.encode_strings ks))
          (λ raw. or_wrap (text "put index") (on_db (olric.dm_put kind index_key raw))) c tt h in
      (
        raw,
        enc,
        λ k' j'.
            ap (λ (d : Cluster O). view d.db k' j') end
            ∙ put_bytes-written (text "put index") kind index_key raw c k' j' done,
      )

  -- The index of `kind` can be decoded.
  abbrev pub IndexDecodes : Cluster O → Text → Type 0
  IndexDecodes c kind = Decodes codec (view c.db kind index_key)

  -- The index of `kind` lists one more key, and no other place changed.
  abbrev Lists : Text → Text → Cluster O → Cluster O → Type 0
  Lists kind key c d =
      ((j : Text) → contains (index_of d kind) j ≡ (contains (index_of c kind) j || same key j))
      × ((k' j' : Text) → same index_key j' ≡ false → view d.db k' j' ≡ view c.db k' j')
      × IndexDecodes d kind

  written-here : (k j raw : Text) (old : Option Text) → written k j raw k j old ≡ some raw
  written-here k j raw old = rw (same_refl k, same_refl j)

  pub written-other :
      (k j raw k' j' : Text) (old : Option Text)
      → same j j' ≡ false
      → written k j raw k' j' old ≡ old
  written-other k j raw k' j' old h = elim (Bool-cases (same k k')) [
    | inl e ↦ rw (e, h)
    | inr e ↦ rw e
  ]

  contains-snoc :
      (ks : List Text) (key j : Text)
      → contains (ks ++ (key ∷ [])) j ≡ (contains ks j || same key j)
  unfolding contains
  contains-snoc ks key j = ground (arith, contains-append ks (key ∷ []) j)

  -- A key that is listed already.
  listed_twice :
      (ks : List Text) (key j : Text)
      → contains ks key ≡ true
      → contains ks j ≡ (contains ks j || same key j)
  listed_twice ks key j h = elim (Bool-cases (same key j)) [
    | inl e ↦ rw (← (same_iff key j).0 e, h)
    | inr e ↦ rw e (ground arith)
  ]

  extend_index-Lists :
      (kind key : Text) (ks : List Text) (c : Cluster O)
      → ReadsKeys codec
      → index_of c kind ≡ ks
      → IndexDecodes c kind
      → (extend_index codec olric kind key ks c).0 ≡ ok tt
      → Lists kind key c (extend_index codec olric kind key ks c).1
  unfolding extend_index Decodes
  extend_index-Lists kind key ks c law e can h = elim (Bool-cases (contains ks key)) [
    | inl t ↦ rw (t, extend_index) ((λ j. rw e (listed_twice ks key j t)), (λ k' j' ne. refl), can)
    | inr f ↦
        let (raw, enc, done) =
          write_index-written kind (ks ++ (key ∷ [])) c (rw (f, extend_index) at h) in
        rw (f, extend_index)
          (
            (λ j.
                ap (λ (o : Option Text). contains (listed codec o) j)
                  (done kind index_key ∙ written-here kind index_key raw _)
                ∙ ap (λ (x : List Text). contains x j)
                    (listed_ok codec raw (ks ++ (key ∷ [])) (law _ raw enc))
                ∙ contains-snoc ks key j
                ∙ ap (λ (x : List Text). contains x j || same key j) (sym e)),
            (λ k' j' ne. done k' j' ∙ written-other kind index_key raw k' j' _ ne),
            rw (done kind index_key, written-here kind index_key raw (view c.db kind index_key))
                (ks ++ (key ∷ []), law (ks ++ (key ∷ [])) raw enc),
          )
  ]

  update_index-IndexDecodes :
      (kind key : Text) (c : Cluster O)
      → (update_index codec olric kind key c).0 ≡ ok tt
      → IndexDecodes c kind
  unfolding update_index
  update_index-IndexDecodes kind key c h =
      let (ks, read, done, end) =
        bind-eq-ok (read_index codec olric kind) (λ ks. extend_index codec olric kind key ks) c tt
          h in
      read_index-Decodes codec olric view L kind c ks read

  update_index-Lists :
      (kind key : Text) (c : Cluster O)
      → ReadsKeys codec
      → (update_index codec olric kind key c).0 ≡ ok tt
      → Lists kind key c (update_index codec olric kind key c).1
  unfolding update_index
  update_index-Lists kind key c law h =
      let (ks, read, done, end) =
        bind-eq-ok (read_index codec olric kind) (λ ks. extend_index codec olric kind key ks) c tt
          h in
      let kept = view-read_index codec olric view L kind c in
      let can = read_index-Decodes codec olric view L kind c ks read in
      let (lists, others, decodes) =
        extend_index-Lists kind key ks (read_index codec olric kind c).1 law
          (ap (listed codec) (kept kind index_key)
            ∙ read_index-listed codec olric view L kind c ks read)
          (subst (Decodes codec) (sym (kept kind index_key)) can) done in
      rw end (
        (λ j.
            lists j
            ∙ ap (λ (o : Option Text). contains (listed codec o) j || same key j)
                (kept kind index_key)),
        (λ k' j' ne. others k' j' ne ∙ kept k' j'),
        decodes,
      )

  -- The index of `kind`, which could be decoded and can be, lists one more key, and no other place
  -- changed but that of the lock.
  abbrev Adds : Text → Text → Cluster O → Cluster O → Type 0
  Adds kind key c d =
      ((j : Text) → contains (index_of d kind) j ≡ (contains (index_of c kind) j || same key j))
      × ((k' j' : Text)
          → same index_key j' ≡ false
          → same index_lock_key j' ≡ false
          → view d.db k' j' ≡ view c.db k' j')
      × IndexDecodes c kind
      × IndexDecodes d kind

  lock_key_ne : same index_lock_key index_key ≡ false
  unfolding same
  lock_key_ne = refl

  Adds-between :
      (kind key : Text) (c c' d d' : Cluster O)
      → IndexDecodes c' kind
      → Lists kind key c' d
      → ((k' j' : Text) → same index_lock_key j' ≡ false → view c'.db k' j' ≡ view c.db k' j')
      → ((k' j' : Text) → same index_lock_key j' ≡ false → view d'.db k' j' ≡ view d.db k' j')
      → Adds kind key c d'
  Adds-between kind key c c' d d' can (lists, others, decodes) before after = (
    λ j.
        ap (λ (o : Option Text). contains (listed codec o) j) (after kind index_key lock_key_ne)
        ∙ lists j
        ∙ ap (λ (o : Option Text). contains (listed codec o) j || same key j)
            (before kind index_key lock_key_ne),
    (λ k' j' ne ne'. after k' j' ne' ∙ others k' j' ne ∙ before k' j' ne'),
    subst (Decodes codec) (before kind index_key lock_key_ne) can,
    subst (Decodes codec) (sym (after kind index_key lock_key_ne)) decodes,
  )

  -- The state in which the index is updated.
  abbrev with_lock : Text → Cluster O → Cluster O
  with_lock kind c =
      (on_db (olric.lock_with_timeout kind index_lock_key (seconds 10) (seconds 5)) c).1

  abbrev unlocked : (O → O) → Cluster O → Cluster O
  unlocked unlock d = record d { db = unlock d.db }

  pub add_to_index-locked :
      (kind key : Text) (c : Cluster O) (acquired : Result (O → O))
      → ReadsKeys codec
      → (olric.lock_with_timeout kind index_lock_key (seconds 10) (seconds 5) c.db).0 ≡ acquired
      → (add_to_index codec olric kind key c).0 ≡ ok tt
      → Adds kind key c (add_to_index codec olric kind key c).1
  unfolding add_to_index
  add_to_index-locked kind key c (ok unlock) law l h =
      let done = rw (l, add_to_index) at h in
      rw (l, add_to_index)
        (Adds-between kind key c (with_lock kind c)
          (update_index codec olric kind key (with_lock kind c)).1
          (unlocked unlock (update_index codec olric kind key (with_lock kind c)).1)
          (update_index-IndexDecodes kind key (with_lock kind c) done)
          (update_index-Lists kind key (with_lock kind c) law done)
          (λ k' j' ne. L.view-lock kind index_lock_key (seconds 10) (seconds 5) c.db k' j' ne)
          (λ k' j' ne.
            L.view-unlock kind index_lock_key (seconds 10) (seconds 5) c.db _ unlock k' j' l ne))
  add_to_index-locked kind key c (err e) law l h =
      let done = rw (l, add_to_index) at h in
      rw (l, add_to_index)
        (Adds-between kind key c (with_lock kind c)
          (update_index codec olric kind key (with_lock kind c)).1
          (update_index codec olric kind key (with_lock kind c)).1
          (update_index-IndexDecodes kind key (with_lock kind c) done)
          (update_index-Lists kind key (with_lock kind c) law done)
          (λ k' j' ne. L.view-lock kind index_lock_key (seconds 10) (seconds 5) c.db k' j' ne)
          (λ k' j' ne. refl))
