-- ===== src/Cluster.antt =====
-- internal/cluster/cluster.go: the cluster over the distributed maps of Olric.
--
-- The embedded client of Olric is a parameter (`Olric`): its maps, one for each kind, are in a state
-- `O`, and a lock is given as the function that releases it.
pub mod Laws
pub mod Index
pub mod Put
pub mod Plain
pub mod Read
pub mod Unlisted
pub mod Race
pub mod Start
use lbsync.Prelude.{
  ℕ, ℤ, Text, text, contains, Option, none, some, List, [], ◌∷◌, ◌++◌, Result, ok, err, Error,
  wrapped, if◌then◌else◌,
}
use lbsync.Prelude.Steps.{Steps, ◌>>=◌, ◌>>◌, pure, lift, or_wrap}
use lbsync.Engine.{Record, ClusterKv, seconds}
use lbsync.Wan.{Codec}

-- What Get of a map answers: ErrKeyNotFound, another error, or a response with its bytes.
pub data Answer : Type 0 where
  not_found : Answer
  failed : Error → Answer
  found : Result Text → Answer

pub record Olric (O : Type 0) : Type 0 where
  pub new_dmap : Text → O → Result (Unit {0}) × O
  pub dm_get : Text → Text → O → Answer × O
  pub dm_put : Text → Text → Text → O → Result (Unit {0}) × O
  pub lock_with_timeout : Text → Text → ℤ → ℤ → O → Result (O → O) × O
  pub members : O → Result ℕ × O
  pub shutdown : O → Result (Unit {0}) × O

-- Cluster. `dmaps` holds the kinds whose maps were opened.
pub record Cluster (O : Type 0) : Type 0 where
  pub db : O
  pub dmaps : List Text

-- indexKey, indexLockKey and lockPrefix
abbrev pub index_key : Text
index_key = text "__lbsync_index__"

abbrev pub index_lock_key : Text
index_lock_key = text "__lbsync_index_lock__"

abbrev pub lock_prefix : Text
lock_prefix = text "__lbsync_lock__:"

-- A call of the client.
abbrev pub on_db : {O A : Type 0} → (O → A × O) → Cluster O → A × Cluster O
on_db f c = let (a, db') = f c.db in (a, record c { db = db' })

abbrev pub count_of : Result ℕ → ℕ
count_of (ok n) = n
count_of (err e) = 0

module _ {O : Type 0} (olric : Olric O) where
  -- The map that was made is kept.
  unfoldable pub opened : Text → Cluster O → Result (Unit {0}) × O → Result (Unit {0}) × Cluster O
  opened kind c (err e, db') = (err (wrapped (text "new dmap " ++ kind) e), record c { db = db' })
  opened kind c (ok _, db') = (ok tt, record { db = db'; dmaps = kind ∷ c.dmaps })

  -- c.dmap
  unfoldable pub open_dmap : Text → Steps (Cluster O) (Unit {0})
  open_dmap kind c =
      if contains c.dmaps kind then (ok tt, c) else opened kind c (olric.new_dmap kind c.db)

  -- c.Lock
  unfoldable pub lock : Text → Text → ℤ → Steps (Cluster O) (Cluster O → Cluster O)
  lock kind key ttl = do
    open_dmap kind
    unlock ←
        or_wrap (text "lock " ++ (kind ++ (text "/" ++ key)))
          (on_db (olric.lock_with_timeout kind (lock_prefix ++ key) ttl ttl))
    pure (λ c. record c { db = unlock c.db })

  -- c.Members: 0 if they cannot be read.
  unfoldable pub members : Cluster O → ℕ × Cluster O
  members c = let (res, c') = on_db olric.members c in (count_of res, c')

  -- c.Close
  unfoldable close : Steps (Cluster O) (Unit {0})
  close = on_db olric.shutdown

module _ (codec : Codec) where
  -- The end of Get.
  unfoldable pub record_in : Text → Answer → Result (Option Record)
  record_in place not_found = ok none
  record_in place (failed e) = err (wrapped (text "get " ++ place) e)
  record_in place (found (err e)) = err (wrapped (text "decode get " ++ place) e)
  record_in place (found (ok raw)) = elim (codec.decode_record raw) [
    | err e ↦ err e
    | ok rec ↦ ok (some rec)
  ]

  -- The end of readIndex.
  unfoldable pub keys_in : Answer → Result (List Text)
  keys_in not_found = ok []
  keys_in (failed e) = err (wrapped (text "read index") e)
  keys_in (found (err e)) = err (wrapped (text "decode index") e)
  keys_in (found (ok raw)) = codec.decode_strings raw

  module _ {O : Type 0} (olric : Olric O) where
    -- What c.Get does with the map.
    unfoldable pub read_record : Text → Text → Steps (Cluster O) (Option Record)
    read_record kind key c =
        let (answer, c') = on_db (olric.dm_get kind key) c in
        (record_in (kind ++ (text "/" ++ key)) answer, c')

    -- c.Get
    unfoldable pub get : Text → Text → Steps (Cluster O) (Option Record)
    get kind key = open_dmap olric kind >> read_record kind key

    -- c.readIndex
    unfoldable pub read_index : Text → Steps (Cluster O) (List Text)
    read_index kind c =
        let (answer, c') = on_db (olric.dm_get kind index_key) c in (keys_in answer, c')

    unfoldable pub write_index : Text → List Text → Steps (Cluster O) (Unit {0})
    write_index kind keys = do
      raw ← lift (codec.encode_strings keys)
      or_wrap (text "put index") (on_db (olric.dm_put kind index_key raw))

    -- The index is written only if the key is not in it.
    unfoldable pub extend_index : Text → Text → List Text → Steps (Cluster O) (Unit {0})
    extend_index kind key keys =
        if contains keys key then pure tt else write_index kind (keys ++ (key ∷ []))

    unfoldable pub update_index : Text → Text → Steps (Cluster O) (Unit {0})
    update_index kind key = do keys ← read_index kind; extend_index kind key keys

    -- c.addToIndex: a lock that is not acquired does not stop it. The release is deferred.
    unfoldable pub add_to_index : Text → Text → Steps (Cluster O) (Unit {0})
    add_to_index kind key c =
        let (acquired, c') =
          on_db (olric.lock_with_timeout kind index_lock_key (seconds 10) (seconds 5)) c in
        let (res, c'') = update_index kind key c' in
        elim acquired [ ok unlock ↦ (res, record c'' { db = unlock c''.db }) | err _ ↦ (res, c'') ]

    unfoldable pub put_raw : Record → Text → Steps (Cluster O) (Unit {0})
    put_raw r raw = do
      or_wrap (text "put " ++ (r.kind ++ (text "/" ++ r.key)))
          (on_db (olric.dm_put r.kind r.key raw))
      add_to_index r.kind r.key

    -- c.Put
    unfoldable pub put : Record → Steps (Cluster O) (Unit {0})
    put r = do open_dmap olric r.kind; raw ← lift (codec.encode_record r); put_raw r raw

    -- c.Keys
    unfoldable pub keys : Text → Steps (Cluster O) (List Text)
    keys kind = open_dmap olric kind >> read_index kind

    -- Cluster satisfies engine.ClusterKV.
    unfoldable pub olric_cluster : ClusterKv (Cluster O)
    olric_cluster = record {
      get = get;
      put = put;
      keys = keys;
      lock = lock olric;
      members = members olric;
    }
