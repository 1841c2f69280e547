-- ===== src/Wan/Facade.antt =====
-- `Put` and `Get` of internal/wan/wan.go, and what the peers make of a put.
use mathlib.Core.Path.{subst}
use lbsync.Prelude.{
  ◌≡◌, ◌∙◌, refl, sym, ap, Error, Text, same, Bool, true, false, ◌&&◌, Option, none, some, List, [],
  ◌∷◌, Result, ok, err, ok-injective, err-ne-ok, map, All, if◌then◌else◌,
}
use lbsync.Prelude.Dict.{lookup, insert, lookup-insert}
use lbsync.Engine.{Record}
use lbsync.Wan.{
  Codec, Backend, Peers, Message, store_key, ask_peers, get, put, to_all, handle_put_record,
}
use lbsync.Wan.Keys.{NulFree, same-store_key}
use lbsync.Wan.Handler.{Merges, handle_put_record-merged}

module _ (codec : Codec) where
  -- What Decode of internal/gobcodec promises: it reads back what Encode wrote.
  abbrev pub ReadsBack : Type 0
  ReadsBack =
      (r : Record) (raw : Text) → codec.encode_record r ≡ ok raw → codec.decode_record raw ≡ ok r

  -- What Get makes of the bytes that the store has.
  abbrev from_store : Peers → Text → Text → List Text → Option Text → Result (Option Record)
  from_store answer k j peers none = ok (ask_peers codec answer k j peers)
  from_store answer k j peers (some raw) = elim (codec.decode_record raw) [
    | err e ↦ err e
    | ok r ↦ ok (some r)
  ]

  get-from_store :
      (answer : Peers) (k j : Text) (b : Backend)
      → get codec answer k j b ≡ from_store answer k j b.peers (lookup b.store (store_key k j))
  unfolding get
  get-from_store answer k j b = by_cases (lookup b.store (store_key k j)) refl
    where
      by_cases :
          (o : Option Text)
          → lookup b.store (store_key k j) ≡ o
          → get codec answer k j b ≡ from_store answer k j b.peers o
      by_cases none h = rw (h, get)
      by_cases (some raw) h = rw (h, get)

  from_store-if :
      (answer : Peers) (k j : Text) (peers : List Text) (r : Record) (raw : Text) (here : Bool)
      (old : Option Text)
      → codec.decode_record raw ≡ ok r
      → from_store answer k j peers (if here then some raw else old)
        ≡ (if here then ok (some r) else from_store answer k j peers old)
  from_store-if answer k j peers r raw true old h = rw h
  from_store-if answer k j peers r raw false old h = refl

  -- After a put, whatever the store held, Get finds the record at its kind and key, and elsewhere
  -- gives what it gave before, the peers' answers included. The codec reads back what it wrote, the
  -- record can be encoded, and kinds hold no zero byte.
  pub get-put :
      (r : Record) (raw : Text) (answer : Peers) (k j : Text) (b : Backend)
      → ReadsBack
      → codec.encode_record r ≡ ok raw
      → NulFree r.kind
      → NulFree k
      → get codec answer k j (put codec r b).1
        ≡ (if same r.kind k && same r.key j then ok (some r) else get codec answer k j b)
  unfolding put
  get-put r raw answer k j b law e free free' =
      rw (e, put)
        (get-from_store answer k j
            (record b { store = insert b.store (store_key r.kind r.key) raw })
          ∙ ap (from_store answer k j b.peers)
              (lookup-insert b.store (store_key r.kind r.key) raw (store_key k j))
          ∙ rw (same-store_key r.kind k r.key j free free', get-from_store answer k j b)
              (from_store-if answer k j b.peers r raw (same r.kind k && same r.key j) _
                (law r raw e)))

  abbrev pub peer_of : Message → Text
  peer_of m = m.peer

  -- A delivery of the message to the node `b` merges `r` into it.
  abbrev pub Carries : Record → Backend → Text → Text → Message → Type 0
  Carries r b k j m = Merges codec r b k j (handle_put_record codec (ok m.raw) b)

  to_all-Carries :
      (r : Record) (raw : Text) (peers : List Text) (b : Backend) (k j : Text)
      → codec.decode_record raw ≡ ok r
      → NulFree r.kind
      → NulFree k
      → (map peer_of (to_all codec raw peers) ≡ peers)
        × All (Carries r b k j) (to_all codec raw peers)
  to_all-Carries r raw [] b k j h free free' = (refl, tt)
  to_all-Carries r raw (peer ∷ peers) b k j h free free' =
      let (same_peers, rest) = to_all-Carries r raw peers b k j h free free' in
      (
        ap (λ (x : List Text). peer ∷ x) same_peers,
        (handle_put_record-merged codec raw r b k j h free free', rest),
      )

  pub put_ok :
      (r : Record) (raw : Text) (b : Backend)
      → codec.encode_record r ≡ ok raw
      → (put codec r b).0 ≡ ok (to_all codec raw b.peers)
  unfolding put
  put_ok r raw b e = rw (e, put)

  put_err :
      (r : Record) (x : Error) (b : Backend)
      → codec.encode_record r ≡ err x
      → (put codec r b).0 ≡ err x
  unfolding put
  put_err r x b e = rw (e, put)

  -- A put that succeeds sends one message to each peer, in their order. A node that gets it then
  -- holds the newer of the record put and its own at that kind and key, is otherwise as it was, and
  -- answers 204. The codec reads back what it wrote, and kinds hold no zero byte.
  pub put-Carries :
      (r : Record) (b : Backend) (messages : List Message) (reached : Backend) (k j : Text)
      → ReadsBack
      → NulFree r.kind
      → NulFree k
      → (put codec r b).0 ≡ ok messages
      → (map peer_of messages ≡ b.peers) × All (Carries r reached k j) messages
  put-Carries r b messages reached k j law free free' h = by_cases (codec.encode_record r) refl
    where
      by_cases :
          (x : Result Text)
          → codec.encode_record r ≡ x
          → (map peer_of messages ≡ b.peers) × All (Carries r reached k j) messages
      by_cases (err x) e = absurd (err-ne-ok (sym (put_err r x b e) ∙ h))
      by_cases (ok raw) e =
          subst (λ (ms : List Message). (map peer_of ms ≡ b.peers) × All (Carries r reached k j) ms)
            (ok-injective (sym (put_ok r raw b e) ∙ h))
            (to_all-Carries r raw b.peers reached k j (law r raw e) free free')
