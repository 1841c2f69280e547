-- ===== src/Cluster/Plain.antt =====
-- The keys of internal/cluster/cluster.go that are not reserved, and what the calls do to what stands
-- under them.
pub mod Write
pub mod Store
pub mod Found
use lbsync.Prelude.{
  ◌≡◌, ◌∙◌, ◌⊎◌, refl, sym, ap, ℤ, Text, text, same, Bool-cases, inl, inr, false, contains, Option,
  none, some, List, [], ◌∷◌, ◌++◌, Result, ok, err, ok-injective,
}
use lbsync.Prelude.Steps.{
  Steps, pure, or_wrap-eq-ok, ◌>>=◌, lift, or_wrap, or_wrap-state, bind_elim, bind-eq-ok,
}
use lbsync.Engine.{seconds}
use lbsync.Wan.{Codec}
use lbsync.Cluster.{
  Answer, not_found, found, Olric, Cluster, on_db, index_key, index_lock_key, lock_prefix,
  open_dmap, lock, members, read_index, write_index, extend_index, update_index, add_to_index, keys,
}
use lbsync.Cluster.Laws.{written, IsOlric, view-open_dmap, view-read_index}
use lbsync.Cluster.Index.{written-other}

abbrev pub answer_of : Option Text → Answer
answer_of none = not_found
answer_of (some raw) = found (ok raw)

-- Maps that can be reached: they can be opened, a read answers what stands there, and a put that
-- fails has replaced what stands at its key or has not.
pub record Answers {O : Type 0} (olric : Olric O) (view : O → Text → Text → Option Text)
    : Type 0 where
  pub new_dmap_ok : (k : Text) (o : O) → (olric.new_dmap k o).0 ≡ ok tt
  pub dm_get_eq : (k j : Text) (o : O) → (olric.dm_get k j o).0 ≡ answer_of (view o k j)
  pub view-dm_put :
      (k j raw : Text) (o : O) (k' j' : Text)
      → (view (olric.dm_put k j raw o).1 k' j' ≡ written k j raw k' j' (view o k' j'))
        ⊎ (view (olric.dm_put k j raw o).1 k' j' ≡ view o k' j')
  pub view-members : (o : O) (k j : Text) → view (olric.members o).1 k j ≡ view o k j

-- A key that is not reserved.
abbrev pub Plain : Text → Type 0
Plain j =
    (same index_key j ≡ false)
    × (same index_lock_key j ≡ false)
    × ((key : Text) → same (lock_prefix ++ key) j ≡ false)

-- A place under such a key.
abbrev pub PlainPlace : Text → Text → Type 0
PlainPlace k j = Plain j

module _ (codec : Codec) {O : Type 0} (olric : Olric O) (view : O → Text → Text → Option Text)
    (L : IsOlric olric view) (A : Answers olric view) where
  -- What stands under the plain keys is the same.
  abbrev pub Alike : Cluster O → Cluster O → Type 0
  Alike c d = (k j : Text) → Plain j → view d.db k j ≡ view c.db k j

  pub Alike-bind :
      {A B : Type 0} (m : Steps (Cluster O) A) (f : A → Steps (Cluster O) B) (c : Cluster O)
      → Alike c (m c).1
      → ((a : A) → Alike (m c).1 (f a (m c).1).1)
      → Alike c ((m >>= f) c).1
  Alike-bind m f c first then k j plain =
      bind_elim (λ r. view r.1.db k j ≡ view c.db k j) m f c
        (λ a h. then a k j plain ∙ first k j plain) (λ e h. first k j plain)

  pub Alike-or_wrap :
      {A : Type 0} (what : Text) (m : Steps (Cluster O) A) (c : Cluster O)
      → Alike c (m c).1
      → Alike c (or_wrap what m c).1
  Alike-or_wrap what m c kept k j plain =
      ap (λ (d : Cluster O). view d.db k j) (or_wrap-state what m c) ∙ kept k j plain

  pub Alike-open_dmap : (kind : Text) (c : Cluster O) → Alike c (open_dmap olric kind c).1
  Alike-open_dmap kind c k j plain = view-open_dmap olric view L kind c k j

  Alike-read_index : (kind : Text) (c : Cluster O) → Alike c (read_index codec olric kind c).1
  Alike-read_index kind c k j plain = view-read_index codec olric view L kind c k j

  pub Alike-keys : (kind : Text) (c : Cluster O) → Alike c (keys codec olric kind c).1
  unfolding keys
  Alike-keys kind c =
      Alike-bind (open_dmap olric kind) (λ _. read_index codec olric kind) c
        (Alike-open_dmap kind c) (λ u. Alike-read_index kind (open_dmap olric kind c).1)

  pub Alike-members : (c : Cluster O) → Alike c (members olric c).1
  unfolding members
  Alike-members c k j plain = A.view-members c.db k j

  -- The release that Lock gives.
  abbrev releasing : (O → O) → Cluster O → Cluster O
  releasing unlock c = record c { db = unlock c.db }

  -- A call of LockWithTimeout for a key.
  abbrev asking : Text → Text → ℤ → Steps (Cluster O) (O → O)
  asking kind key ttl = on_db (olric.lock_with_timeout kind (lock_prefix ++ key) ttl ttl)

  abbrev locking : Text → Text → ℤ → Steps (Cluster O) (O → O)
  locking kind key ttl = or_wrap (text "lock " ++ (kind ++ (text "/" ++ key))) (asking kind key ttl)

  abbrev granting : (O → O) → Steps (Cluster O) (Cluster O → Cluster O)
  granting unlock = pure (releasing unlock)

  Alike-locking : (kind key : Text) (ttl : ℤ) (c : Cluster O) → Alike c (locking kind key ttl c).1
  Alike-locking kind key ttl c =
      Alike-or_wrap (text "lock " ++ (kind ++ (text "/" ++ key))) (asking kind key ttl) c
        (λ k j plain. L.view-lock kind (lock_prefix ++ key) ttl ttl c.db k j (plain.2 key))

  pub Alike-lock :
      (kind key : Text) (ttl : ℤ) (c : Cluster O) → Alike c (lock olric kind key ttl c).1
  unfolding lock
  Alike-lock kind key ttl c =
      let c' = (open_dmap olric kind c).1 in
      Alike-bind (open_dmap olric kind) (λ _. locking kind key ttl >>= granting) c
        (Alike-open_dmap kind c)
        (λ u.
          Alike-bind (locking kind key ttl) granting c' (Alike-locking kind key ttl c')
            (λ unlock k j plain. refl))

  pub Alike-release :
      (kind key : Text) (ttl : ℤ) (c d : Cluster O) (release : Cluster O → Cluster O)
      → (lock olric kind key ttl c).0 ≡ ok release
      → Alike d (release d)
  unfolding lock
  Alike-release kind key ttl c d release h k j plain =
      let (u, opened, more, end) =
        bind-eq-ok (open_dmap olric kind) (λ _. locking kind key ttl >>= granting) c release h in
      let c' = (open_dmap olric kind c).1 in
      let (unlock, got, last, end') = bind-eq-ok (locking kind key ttl) granting c' release more in
      let granted =
        or_wrap-eq-ok (text "lock " ++ (kind ++ (text "/" ++ key))) (asking kind key ttl) c' unlock
          got in
      ap (λ (f : Cluster O → Cluster O). view (f d).db k j) (sym (ok-injective last))
      ∙ L.view-unlock kind (lock_prefix ++ key) ttl ttl c'.db d.db unlock k j granted (plain.2 key)

  Alike-write_index :
      (kind : Text) (ks : List Text) (c : Cluster O) → Alike c (write_index codec olric kind ks c).1
  unfolding write_index
  Alike-write_index kind ks c =
      let writing = λ (raw : Text). on_db (olric.dm_put kind index_key raw) in
      Alike-bind (lift (codec.encode_strings ks)) (λ raw. or_wrap (text "put index") (writing raw))
        c (λ k j plain. refl)
        (λ raw. Alike-or_wrap (text "put index") (writing raw) c (λ k j plain.
          elim (A.view-dm_put kind index_key raw c.db k j) [
            | inl w ↦ w ∙ written-other codec olric view L kind index_key raw k j _ plain.0
            | inr same ↦ same
          ]))

  Alike-extend_index :
      (kind key : Text) (ks : List Text) (c : Cluster O)
      → Alike c (extend_index codec olric kind key ks c).1
  unfolding extend_index
  Alike-extend_index kind key ks c k j plain = elim (Bool-cases (contains ks key)) [
    | inl h ↦ rw (h, extend_index) refl
    | inr h ↦ rw (h, extend_index) (Alike-write_index kind (ks ++ (key ∷ [])) c k j plain)
  ]

  Alike-update_index :
      (kind key : Text) (c : Cluster O) → Alike c (update_index codec olric kind key c).1
  unfolding update_index
  Alike-update_index kind key c =
      Alike-bind (read_index codec olric kind) (λ ks. extend_index codec olric kind key ks) c
        (Alike-read_index kind c)
        (λ ks. Alike-extend_index kind key ks (read_index codec olric kind c).1)

  abbrev with_lock : Text → Cluster O → Cluster O
  with_lock kind c =
      (on_db (olric.lock_with_timeout kind index_lock_key (seconds 10) (seconds 5)) c).1

  -- Whether or not it succeeds, addToIndex changes the index only.
  pub Alike-add_to_index :
      (kind key : Text) (c : Cluster O) (acquired : Result (O → O))
      → (olric.lock_with_timeout kind index_lock_key (seconds 10) (seconds 5) c.db).0 ≡ acquired
      → Alike c (add_to_index codec olric kind key c).1
  unfolding add_to_index
  Alike-add_to_index kind key c acquired h k j plain =
      let held =
        Alike-update_index kind key (with_lock kind c) k j plain
        ∙ L.view-lock kind index_lock_key (seconds 10) (seconds 5) c.db k j plain.1 in
      (elim acquired
          as (λ a.
            (olric.lock_with_timeout kind index_lock_key (seconds 10) (seconds 5) c.db).0 ≡ a
            → view (add_to_index codec olric kind key c).1.db k j ≡ view c.db k j) [
              | err e ↦ λ l. rw (l, add_to_index) held
              | ok unlock ↦ λ l.
                  rw (l, add_to_index)
                    (L.view-unlock kind index_lock_key (seconds 10) (seconds 5) c.db _ unlock k j l
                        plain.1
                      ∙ held)
            ])
        h
