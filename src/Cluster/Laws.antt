-- ===== src/Cluster/Laws.antt =====
-- What internal/cluster/cluster.go relies on of the maps of Olric, and what a call leaves as it is.
use lbsync.Prelude.{
  ◌≡◌, ◌∙◌, refl, ap, Text, same, contains, Bool-cases, inl, inr, false, ◌&&◌, Option, none, some,
  List, [], Result, ok, err, ℤ, if◌then◌else◌, err-ne-ok, ok-injective,
}
use lbsync.Wan.{Codec}
use lbsync.Cluster.{
  Answer, Olric, Cluster, found, not_found, failed, open_dmap, opened, index_key, read_index,
  keys_in,
}

-- A map after `raw` was put at (k, j).
abbrev pub written : Text → Text → Text → Text → Text → Option Text → Option Text
written k j raw k' j' old = if same k k' && same j j' then some raw else old

-- The maps hold bytes at keys. Reads leave them as they are, and answer what stands there, if they
-- succeed. A put that succeeds replaces what stands at its key, and one that fails may have done so.
-- A lock is a value at its own key.
pub record IsOlric {O : Type 0} (olric : Olric O) (view : O → Text → Text → Option Text)
    : Type 0 where
  pub view-new_dmap :
      (k : Text) (o : O) (k' j' : Text) → view (olric.new_dmap k o).1 k' j' ≡ view o k' j'
  pub view-get :
      (k j : Text) (o : O) (k' j' : Text) → view (olric.dm_get k j o).1 k' j' ≡ view o k' j'
  pub get_found :
      (k j raw : Text) (o : O) → (olric.dm_get k j o).0 ≡ found (ok raw) → view o k j ≡ some raw
  pub get_missing : (k j : Text) (o : O) → (olric.dm_get k j o).0 ≡ not_found → view o k j ≡ none
  pub view-put :
      (k j raw : Text) (o : O) (k' j' : Text)
      → (olric.dm_put k j raw o).0 ≡ ok tt
      → view (olric.dm_put k j raw o).1 k' j' ≡ written k j raw k' j' (view o k' j')
  pub view-lock :
      (k j : Text) (wait ttl : ℤ) (o : O) (k' j' : Text)
      → same j j' ≡ false
      → view (olric.lock_with_timeout k j wait ttl o).1 k' j' ≡ view o k' j'
  pub view-unlock :
      (k j : Text) (wait ttl : ℤ) (o o' : O) (unlock : O → O) (k' j' : Text)
      → (olric.lock_with_timeout k j wait ttl o).0 ≡ ok unlock
      → same j j' ≡ false
      → view (unlock o') k' j' ≡ view o' k' j'

module _ {O : Type 0} (olric : Olric O) (view : O → Text → Text → Option Text)
    (L : IsOlric olric view) where
  db-opened :
      (kind : Text) (c : Cluster O) (r : Result (Unit {0}) × O) → (opened olric kind c r).1.db ≡ r.1
  unfolding opened
  db-opened kind c (ok _, o) = refl
  db-opened kind c (err e, o) = refl

  pub view-open_dmap :
      (kind : Text) (c : Cluster O) (k j : Text)
      → view (open_dmap olric kind c).1.db k j ≡ view c.db k j
  unfolding open_dmap
  view-open_dmap kind c k j = elim (Bool-cases (contains c.dmaps kind)) [
    | inl h ↦ rw h
    | inr h ↦ rw (h, db-opened kind c (olric.new_dmap kind c.db)) (L.view-new_dmap kind c.db k j)
  ]

module _ (codec : Codec) where
  -- The keys that the bytes of an index stand for: none, if there are none or they cannot be decoded.
  unfoldable pub listed : Option Text → List Text
  listed none = []
  listed (some raw) = elim (codec.decode_strings raw) [ err _ ↦ [] | ok ks ↦ ks ]

  pub listed_ok :
      (raw : Text) (ks : List Text) → codec.decode_strings raw ≡ ok ks → listed (some raw) ≡ ks
  unfolding listed
  listed_ok raw ks h = rw (h, listed)

  -- Bytes of an index, if there are any, that can be decoded.
  unfoldable pub Decodes : Option Text → Type 0
  Decodes none = Unit {0}
  Decodes (some raw) = (ks : List Text) × (codec.decode_strings raw ≡ ok ks)

  module _ {O : Type 0} (olric : Olric O) (view : O → Text → Text → Option Text)
      (L : IsOlric olric view) where
    pub view-read_index :
        (kind : Text) (c : Cluster O) (k j : Text)
        → view (read_index codec olric kind c).1.db k j ≡ view c.db k j
    unfolding read_index
    view-read_index kind c k j = L.view-get kind index_key c.db k j

    -- What was read of the index is what it lists.
    pub read_index-listed :
        (kind : Text) (c : Cluster O) (ks : List Text)
        → (read_index codec olric kind c).0 ≡ ok ks
        → listed (view c.db kind index_key) ≡ ks
    unfolding read_index
    read_index-listed kind c ks h = by_cases (olric.dm_get kind index_key c.db).0 refl (h)
      where
        by_cases :
            (a : Answer)
            → (olric.dm_get kind index_key c.db).0 ≡ a
            → keys_in codec a ≡ ok ks
            → listed (view c.db kind index_key) ≡ ks
        by_cases not_found e k =
            unfold keys_in listed in rw (L.get_missing kind index_key c.db e) (ok-injective k)
        by_cases (failed x) e k = unfold keys_in in absurd (err-ne-ok k)
        by_cases (found (err x)) e k = unfold keys_in in absurd (err-ne-ok k)
        by_cases (found (ok raw)) e k =
            ap listed (L.get_found kind index_key raw c.db e)
            ∙ listed_ok raw ks (unfold keys_in in k)

    -- An index that was read can be decoded.
    pub read_index-Decodes :
        (kind : Text) (c : Cluster O) (ks : List Text)
        → (read_index codec olric kind c).0 ≡ ok ks
        → Decodes (view c.db kind index_key)
    unfolding read_index
    read_index-Decodes kind c ks h = by_cases (olric.dm_get kind index_key c.db).0 refl (h)
      where
        by_cases :
            (a : Answer)
            → (olric.dm_get kind index_key c.db).0 ≡ a
            → keys_in codec a ≡ ok ks
            → Decodes (view c.db kind index_key)
        by_cases not_found e k = unfold Decodes in rw (L.get_missing kind index_key c.db e) tt
        by_cases (failed x) e k = unfold keys_in in absurd (err-ne-ok k)
        by_cases (found (err x)) e k = unfold keys_in in absurd (err-ne-ok k)
        by_cases (found (ok raw)) e k =
            unfold keys_in Decodes in rw (L.get_found kind index_key raw c.db e) (ks, k)
