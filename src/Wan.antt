-- ===== src/Wan.antt =====
-- internal/wan/wan.go and internal/wan/handler.go: the backend that keeps the records of a node and
-- pushes them to its peers.
--
-- The gob encoding is a parameter (`Codec`). A peer is what it answers to a request: no answer
-- stands for a request that cannot be built or sent, or an answer that cannot be read. What `Put`
-- sends to the peers, in goroutines of its own, is a list of messages, which the network delivers or
-- loses. The locks around the store make each operation one step.
pub mod Keys
pub mod Handler
pub mod Facade
pub mod Order
pub mod Cluster
pub mod Tls
pub mod Start
pub mod Node
use lbsync.Prelude.{
  ℕ, ◌+◌, Text, same, contains, ◌&&◌, Option, none, some, List, [], ◌∷◌, ◌++◌, length, take, drop,
  ltb, ◌==◌, Result, ok, err, if◌then◌else◌,
}
use lbsync.Prelude.Dict.{Dict, lookup, insert, keys}
use lbsync.Version.{newer}
use lbsync.Engine.{Record}

-- internal/gobcodec, at the two types that are sent.
pub record Codec : Type 0 where
  pub encode_record : Record → Result Text
  pub decode_record : Text → Result Record
  pub encode_strings : List Text → Result Text
  pub decode_strings : Text → Result (List Text)

-- Backend, without the server and the client.
pub record Backend : Type 0 where
  pub addr : Text
  pub peers : List Text
  pub store : Dict Text

-- The routes of newMux, with the values of the path and the body.
pub data Request : Type 0 where
  put_record : Result Text → Request
  get_record : Text → Text → Request
  get_keys : Text → Request
  ping : Request

pub record Response : Type 0 where
  pub status : ℕ
  pub body : Text

pub record Message : Type 0 where
  pub peer : Text
  pub raw : Text

-- What a peer answers.
abbrev pub Peers : Type 0
Peers = Text → Request → Option Response

-- storeKey
unfoldable pub store_key : Text → Text → Text
store_key kind key = kind ++ (0 ∷ key)

-- sk[len(prefix):], if sk is longer than the prefix and begins with it.
unfoldable pub after_prefix : Text → Text → Option Text
after_prefix prefix sk =
    if ltb (length prefix) (length sk) && same (take (length prefix) sk) prefix
    then some (drop (length prefix) sk)
    else none

-- The keys of `kind` among those of the store.
unfoldable pub keys_of_kind : Text → List Text → List Text
keys_of_kind kind [] = []
keys_of_kind kind (sk ∷ sks) =
    let rest = keys_of_kind kind sks in
    elim (after_prefix (kind ++ (0 ∷ [])) sk) [ none ↦ rest | some key ↦ key ∷ rest ]

module _ (codec : Codec) where
  -- handlePutRecord: 400 for a body that cannot be read or decoded, and 204 otherwise.
  unfoldable pub handle_put_record : Result Text → Backend → ℕ × Backend
  handle_put_record (err _) b = (400, b)
  handle_put_record (ok body) b = elim (codec.decode_record body) [
    | err _ ↦ (400, b)
    | ok rec ↦
        let k = store_key rec.kind rec.key in
        let stored = record b { store = insert b.store k body } in
        elim (lookup b.store k) [
          | none ↦ (204, stored)
          | some existing ↦ elim (codec.decode_record existing) [
            | err _ ↦ (204, stored)
            | ok held ↦ if newer rec.version held.version then (204, stored) else (204, b)
          ]
        ]
  ]

  -- handleGetRecord
  unfoldable pub handle_get_record : Text → Text → Backend → Response
  handle_get_record kind key b = elim (lookup b.store (store_key kind key)) [
    | none ↦ record { status = 404; body = [] }
    | some raw ↦ record { status = 200; body = raw }
  ]

  -- handleGetKeys, over the keys of the store in the order of the `range`.
  unfoldable pub handle_get_keys : (List Text → List Text) → Text → Backend → Response
  handle_get_keys range_order kind b =
      elim (codec.encode_strings (keys_of_kind kind (range_order (keys b.store)))) [
        | err _ ↦ record { status = 500; body = [] }
        | ok raw ↦ record { status = 200; body = raw }
      ]

  -- handlePing: "pong"
  unfoldable pub handle_ping : Backend → Response
  handle_ping b = record { status = 200; body = 112 ∷ 111 ∷ 110 ∷ 103 ∷ [] }

  -- newMux: the answer to a request and the store after it.
  unfoldable pub serve : (List Text → List Text) → Request → Backend → Response × Backend
  serve range_order (put_record body) b =
      let (status, b') = handle_put_record body b in (record { status = status; body = [] }, b')
  serve range_order (get_record kind key) b = (handle_get_record kind key b, b)
  serve range_order (get_keys kind) b = (handle_get_keys range_order kind b, b)
  serve range_order ping b = (handle_ping b, b)

  -- The record that an answer carries, if it is one with status 200 that can be decoded.
  unfoldable pub record_in : Option Response → Option Record
  record_in none = none
  record_in (some r) =
      if r.status == 200
      then elim (codec.decode_record r.body) [ err _ ↦ none | ok rec ↦ some rec ]
      else none

  -- The loop of Get over the peers: the first answer that carries a record.
  unfoldable pub ask_peers : Peers → Text → Text → List Text → Option Record
  ask_peers answer kind key [] = none
  ask_peers answer kind key (peer ∷ peers) = elim (record_in (answer peer (get_record kind key))) [
    | some rec ↦ some rec
    | none ↦ ask_peers answer kind key peers
  ]

  -- Get
  unfoldable pub get : Peers → Text → Text → Backend → Result (Option Record)
  get answer kind key b = elim (lookup b.store (store_key kind key)) [
    | some raw ↦ elim (codec.decode_record raw) [ err e ↦ err e | ok rec ↦ ok (some rec) ]
    | none ↦ ok (ask_peers answer kind key b.peers)
  ]

  abbrev pub to_all : Text → List Text → List Message
  to_all raw [] = []
  to_all raw (peer ∷ peers) = record { peer = peer; raw = raw } ∷ to_all raw peers

  -- Put: the store, whatever it held, and the messages of the fan-out.
  unfoldable pub put : Record → Backend → Result (List Message) × Backend
  put r b = elim (codec.encode_record r) [
    | err e ↦ (err e, b)
    | ok raw ↦
        (ok (to_all raw b.peers), record b { store = insert b.store (store_key r.kind r.key) raw })
  ]

  unfoldable pub add_all : List Text → List Text → List Text
  add_all seen [] = seen
  add_all seen (k ∷ ks) = add_all (if contains seen k then seen else seen ++ (k ∷ [])) ks

  -- The keys that an answer carries.
  unfoldable pub keys_in : Option Response → List Text
  keys_in none = []
  keys_in (some r) =
      if r.status == 200 then elim (codec.decode_strings r.body) [ err _ ↦ [] | ok ks ↦ ks ] else []

  unfoldable pub add_peer_keys : Peers → Text → List Text → List Text → List Text
  add_peer_keys answer kind [] seen = seen
  add_peer_keys answer kind (peer ∷ peers) seen =
      add_peer_keys answer kind peers (add_all seen (keys_in (answer peer (get_keys kind))))

  -- Keys: the keys of the map `seen`, in the order of the last `range`. It returns no error.
  unfoldable pub all_keys : Peers → (List Text → List Text) → Text → Backend → List Text
  all_keys answer range_order kind b = range_order (
      add_peer_keys answer kind b.peers
        (add_all [] (keys_of_kind kind (range_order (keys b.store)))))

  -- Members: this node and the peers that answer a ping with 200.
  unfoldable pub members : Peers → List Text → ℕ
  members answer [] = 1
  members answer (peer ∷ peers) =
      elim (answer peer ping) [ none ↦ 0 | some r ↦ if r.status == 200 then 1 else 0 ]
      + members answer peers
