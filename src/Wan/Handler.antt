-- ===== src/Wan/Handler.antt =====
-- What a pushed record does to the store of internal/wan/handler.go.
use lbsync.Prelude.{
  ℕ, ◌≡◌, ◌∙◌, refl, ap, Text, same, Bool, Bool-cases, inl, inr, true, false, ◌&&◌, Option, none,
  some, Error, Result, ok, err, if◌then◌else◌,
}
use lbsync.Prelude.Dict.{lookup, insert, lookup-insert}
use lbsync.Version.{newer}
use lbsync.Engine.{Record, pick_newer}
use lbsync.Engine.Publish.Merge.{merged, merged-written, merged-kept}
use lbsync.Wan.{Codec, Backend, store_key, handle_put_record}
use lbsync.Wan.Keys.{NulFree, same-store_key}

module _ (codec : Codec) where
  -- What bytes in the store stand for: no record, if they cannot be decoded.
  unfoldable pub decoded : Option Text → Option Record
  decoded none = none
  decoded (some raw) = elim (codec.decode_record raw) [ err _ ↦ none | ok rec ↦ some rec ]

  pub decoded_ok :
      (raw : Text) (r : Record) → codec.decode_record raw ≡ ok r → decoded (some raw) ≡ some r
  unfolding decoded
  decoded_ok raw r h = rw (h, decoded)

  pub decoded_err :
      (raw : Text) (x : Error) → codec.decode_record raw ≡ err x → decoded (some raw) ≡ none
  unfolding decoded
  decoded_err raw x h = rw (h, decoded)

  -- The record that the store of a node holds for (kind, key).
  unfoldable pub held : Backend → Text → Text → Option Record
  held b kind key = decoded (lookup b.store (store_key kind key))

  -- The store at (k, j) after bytes were put under the composite key of `rec`.
  pub held-insert :
      (rec : Record) (raw : Text) (b : Backend) (k j : Text)
      → NulFree rec.kind
      → NulFree k
      → held (record b { store = insert b.store (store_key rec.kind rec.key) raw }) k j
        ≡ (if same rec.kind k && same rec.key j then decoded (some raw) else held b k j)
  unfolding held
  held-insert rec raw b k j free free' =
      ap decoded (lookup-insert b.store (store_key rec.kind rec.key) raw (store_key k j))
      ∙ rw (same-store_key rec.kind k rec.key j free free')
          (pull (same rec.kind k && same rec.key j))
    where
      pull :
          (t : Bool)
          → decoded (if t then some raw else lookup b.store (store_key k j))
            ≡ (if t then decoded (some raw) else decoded (lookup b.store (store_key k j)))
      pull true = refl
      pull false = refl

  abbrev stored : Record → Text → Backend → Backend
  stored rec body b = record b { store = insert b.store (store_key rec.kind rec.key) body }

  stored-merged :
      (body : Text) (rec : Record) (b : Backend) (k j : Text)
      → codec.decode_record body ≡ ok rec
      → NulFree rec.kind
      → NulFree k
      → pick_newer (some rec) (held b rec.kind rec.key) ≡ some rec
      → held (stored rec body b) k j ≡ merged rec k j (held b k j)
  stored-merged body rec b k j e free free' wins =
      held-insert rec body b k j free free'
      ∙ ap (λ (o : Option Record). if same rec.kind k && same rec.key j then o else held b k j)
          (decoded_ok body rec e)
      ∙ merged-written rec k j (held b) wins

  -- The answer and the store.
  abbrev pub Merges : Record → Backend → Text → Text → ℕ × Backend → Type 0
  Merges rec b k j r = (r.0 ≡ 204) × (held r.1 k j ≡ merged rec k j (held b k j))

  held_ok :
      (raw : Text) (old : Record) (b : Backend) (rec : Record)
      → lookup b.store (store_key rec.kind rec.key) ≡ some raw
      → codec.decode_record raw ≡ ok old
      → held b rec.kind rec.key ≡ some old
  unfolding held
  held_ok raw old b rec h good = ap decoded h ∙ decoded_ok raw old good

  held-none :
      (o : Option Text) (b : Backend) (rec : Record)
      → lookup b.store (store_key rec.kind rec.key) ≡ o
      → decoded o ≡ none
      → held b rec.kind rec.key ≡ none
  unfolding held
  held-none o b rec h bad = ap decoded h ∙ bad

  handle_put_record_held :
      (body raw : Text) (rec : Record) (b : Backend) (k j : Text) (old : Result Record)
      → codec.decode_record body ≡ ok rec
      → NulFree rec.kind
      → NulFree k
      → lookup b.store (store_key rec.kind rec.key) ≡ some raw
      → codec.decode_record raw ≡ old
      → Merges rec b k j (handle_put_record codec (ok body) b)
  unfolding handle_put_record pick_newer
  handle_put_record_held body raw rec b k j (err x) e free free' h bad =
      rw (e, h, bad, handle_put_record)
        (
          refl,
          stored-merged body rec b k j e free free'
              (ap (pick_newer (some rec)) (held-none (some raw) b rec h (decoded_err raw x bad))),
        )
  handle_put_record_held body raw rec b k j (ok old) e free free' h good =
      elim (Bool-cases (newer rec.version old.version)) [
        | inl n ↦
            rw (e, h, good, n, handle_put_record)
              (
                refl,
                stored-merged body rec b k j e free free'
                    (rw (held_ok raw old b rec h good) (rw n)),
              )
        | inr n ↦
            rw (e, h, good, n, handle_put_record)
              (refl, merged-kept rec k j (held b) (rw (held_ok raw old b rec h good) (rw n)))
      ]

  handle_put_record_found :
      (body : Text) (rec : Record) (b : Backend) (k j : Text) (found : Option Text)
      → codec.decode_record body ≡ ok rec
      → NulFree rec.kind
      → NulFree k
      → lookup b.store (store_key rec.kind rec.key) ≡ found
      → Merges rec b k j (handle_put_record codec (ok body) b)
  unfolding handle_put_record pick_newer
  handle_put_record_found body rec b k j none e free free' h =
      rw (e, h, handle_put_record)
        (
          refl,
          stored-merged body rec b k j e free free'
              (ap (pick_newer (some rec)) (held-none none b rec h (unfold decoded in refl))),
        )
  handle_put_record_found body rec b k j (some raw) e free free' h =
      handle_put_record_held body raw rec b k j _ e free free' h refl

  -- Pushing a record merges it into the store of the node: afterwards the store holds the newer of
  -- the pushed record and the record that it held (bytes that cannot be decoded count as none), and
  -- every other place is as it was. The answer is 204. Kinds hold no zero byte.
  pub handle_put_record-merged :
      (body : Text) (rec : Record) (b : Backend) (k j : Text)
      → codec.decode_record body ≡ ok rec
      → NulFree rec.kind
      → NulFree k
      → Merges rec b k j (handle_put_record codec (ok body) b)
  handle_put_record-merged body rec b k j e free free' =
      handle_put_record_found body rec b k j _ e free free' refl
