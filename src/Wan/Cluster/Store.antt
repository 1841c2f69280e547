-- ===== src/Wan/Cluster/Store.antt =====
-- The backend of internal/wan/wan.go as the cluster that internal/engine/engine.go relies on.
use mathlib.Core.Path.{subst}
use lbsync.Prelude.{
  ◌≡◌, ◌∙◌, ◌⊎◌, refl, sym, ap, Text, same, ◌&&◌, Bool-cases, inl, inr, Option, some, Result, ok,
  err, Error, List, ◌++◌, ok-injective, err-ne-ok, if◌then◌else◌,
}
use lbsync.Engine.{Record}
use lbsync.Engine.Store.{written}
use lbsync.Engine.Store.Guarded.{answered, Keeps, IsStoreOn}
use lbsync.Wan.{Codec, Backend, Message, Peers, get, put}
use lbsync.Wan.Keys.{NulFree}
use lbsync.Wan.Facade.{ReadsBack, get-put}
use lbsync.Wan.Cluster.{Wan, put_and_send, wan_cluster}

-- A kind without a zero byte.
abbrev pub NulFreePlace : Text → Text → Type 0
NulFreePlace k j = NulFree k

module _ (codec : Codec) (answer : Peers) (order : List Text → List Text) where
  -- The record that Get answers.
  abbrev pub seen : Wan → Text → Text → Option Record
  seen c k j = answered (get codec answer k j c.backend)

  -- Get answers without an error.
  abbrev pub Readable : Wan → Type 0
  Readable c =
      (k j : Text) → NulFree k → (o : Option Record) × (get codec answer k j c.backend ≡ ok o)

  get_seen :
      (k j : Text) (c : Wan)
      → Readable c
      → NulFree k
      → get codec answer k j c.backend ≡ ok (seen c k j)
  get_seen k j c readable free = let (o, h) = readable k j free in h ∙ ap ok (sym (ap answered h))

  abbrev after : Record → Wan → Wan
  after r c = (put_and_send codec (put codec r c.backend) c).1

  backend-after :
      (x : Result (List Message) × Backend) (c : Wan) → (put_and_send codec x c).1.backend ≡ x.1
  unfolding put_and_send
  backend-after (ok messages, b) c = refl
  backend-after (err e, b) c = refl

  -- A record that cannot be encoded.
  put_refused :
      (r : Record) (e : Error) (b : Backend)
      → codec.encode_record r ≡ err e
      → put codec r b ≡ (err e, b)
  unfolding put
  put_refused r e b h = rw (h, put) refl

  not_put :
      (r : Record) (e : Error) (c : Wan)
      → codec.encode_record r ≡ err e
      → ((after r c).backend ≡ c.backend)
        × ((put_and_send codec (put codec r c.backend) c).0 ≡ err e)
  unfolding put_and_send
  not_put r e c h = (
    ap (λ (x : Result (List Message) × Backend). (put_and_send codec x c).1.backend)
        (put_refused r e c.backend h),
    ap (λ (x : Result (List Message) × Backend). (put_and_send codec x c).0)
        (put_refused r e c.backend h),
  )

  -- A put replaces what Get answers at the place of the record, or nothing.
  get-after :
      (r : Record) (c : Wan) (x : Result Text)
      → ReadsBack codec
      → NulFree r.kind
      → codec.encode_record r ≡ x
      → ((k j : Text)
          → NulFree k
          → get codec answer k j (after r c).backend ≡ (
              if same r.kind k && same r.key j
              then ok (some r)
              else get codec answer k j c.backend))
        ⊎ (((k j : Text)
              → get codec answer k j (after r c).backend ≡ get codec answer k j c.backend)
            × ((e : Error) × ((put_and_send codec (put codec r c.backend) c).0 ≡ err e)))
  get-after r c (ok raw) law free h = inl (λ k j free'.
      ap (λ (b : Backend). get codec answer k j b) (backend-after (put codec r c.backend) c)
      ∙ get-put codec r raw answer k j c.backend law h free free')
  get-after r c (err e) law free h = inr (
    λ k j. ap (λ (b : Backend). get codec answer k j b) (not_put r e c h).0,
    (e, (not_put r e c h).1),
  )

  stay : (c : Wan) → Readable c → Keeps seen Readable NulFreePlace c c
  stay c readable = (readable, λ k j free. refl)

  after-Readable :
      (r : Record) (c : Wan) → ReadsBack codec → NulFree r.kind → Readable c → Readable (after r c)
  after-Readable r c law free readable k j free' = elim (get-after r c _ law free refl) [
    | inr (kept, refused) ↦ let (o, h) = readable k j free' in (o, kept k j ∙ h)
    | inl put_ ↦ elim (Bool-cases (same r.kind k && same r.key j)) [
      | inl m ↦ (some r, put_ k j free' ∙ rw m)
      | inr m ↦ let (o, h) = readable k j free' in (o, put_ k j free' ∙ rw m h)
    ]
  ]

  seen-written :
      (r : Record) (c : Wan) (k j : Text)
      → get codec answer k j (after r c).backend
        ≡ (if same r.kind k && same r.key j then ok (some r) else get codec answer k j c.backend)
      → seen (after r c) k j ≡ written r k j (seen c k j)
  seen-written r c k j h = elim (Bool-cases (same r.kind k && same r.key j)) [
    | inl m ↦ ap answered h ∙ rw m
    | inr m ↦ ap answered h ∙ rw m
  ]

  seen-put :
      (r : Record) (c : Wan) (k j : Text)
      → ReadsBack codec
      → NulFree r.kind
      → NulFree k
      → (put_and_send codec (put codec r c.backend) c).0 ≡ ok tt
      → seen (after r c) k j ≡ written r k j (seen c k j)
  seen-put r c k j law free free' done = elim (get-after r c _ law free refl) [
    | inl put_ ↦ seen-written r c k j (put_ k j free')
    | inr (kept, (e, refused)) ↦ absurd (err-ne-ok (sym refused ∙ done))
  ]

  seen-put_failed :
      (r : Record) (c : Wan) (k j : Text)
      → ReadsBack codec
      → NulFree r.kind
      → NulFree k
      → (seen (after r c) k j ≡ written r k j (seen c k j)) ⊎ (seen (after r c) k j ≡ seen c k j)
  seen-put_failed r c k j law free free' = elim (get-after r c _ law free refl) [
    | inl put_ ↦ inl (seen-written r c k j (put_ k j free'))
    | inr (kept, refused) ↦ inr (ap answered (kept k j))
  ]

  -- What a put came to: the record can be encoded, and messages are sent after those sent before; or
  -- it cannot, which is the error, and everything is as it was.
  abbrev pub PutOutcome : Record → Wan → Result (Unit {0}) × Wan → Type 0
  PutOutcome r c (ok _, d) =
      (raw : Text) × (codec.encode_record r ≡ ok raw)
      × (messages : List Message) × (d.sent ≡ c.sent ++ messages)
  PutOutcome r c (err e, d) = (codec.encode_record r ≡ err e) × (d ≡ c)

  put-PutOutcome :
      (r : Record) (c : Wan) (x : Result Text)
      → codec.encode_record r ≡ x
      → PutOutcome r c ((wan_cluster codec answer order).put r c)
  unfolding wan_cluster put_and_send put
  put-PutOutcome r c (ok raw) h = rw (h, put, put_and_send) (raw, h, _, refl)
  put-PutOutcome r c (err e) h = rw (h, put, put_and_send) (h, refl)

  store_laws :
      ReadsBack codec → IsStoreOn (wan_cluster codec answer order) seen Readable NulFreePlace
  unfolding wan_cluster
  store_laws law = record {
    get_eq = λ k j c readable free. get_seen k j c readable free;
    get-Keeps = λ k j c readable. stay c readable;
    keys-Keeps = λ k c readable. stay c readable;
    members-Keeps = λ c readable. stay c readable;
    lock-Keeps = λ k j ttl c readable. stay c readable;
    release-Keeps = λ k j ttl c d release h readable.
        subst (λ (f : Wan → Wan). Keeps seen Readable NulFreePlace d (f d)) (ok-injective h)
          (stay d readable);
    put-Valid = λ r c readable free. after-Readable r c law free readable;
    view-put = λ r c k j readable free free' done. seen-put r c k j law free free' done;
    view-put_failed = λ r c k j readable free free'. seen-put_failed r c k j law free free';
  }

  -- As long as the peers' answers stay the same, with a codec that reads back what it wrote, and for
  -- kinds without a zero byte, the backend is a map of records, as the engine relies on: it holds what
  -- Get answers, be it from its own store or from a peer. A lock, which does nothing, and the reads leave
  -- it as it is; a put that succeeds replaces the one record, and what was sent before it stays. A put
  -- fails exactly if the record cannot be encoded, and then leaves everything as it is.
  pub wan_cluster-IsStoreOn :
      ReadsBack codec
      → IsStoreOn (wan_cluster codec answer order) seen Readable NulFreePlace
        × ((r : Record) (c : Wan) → PutOutcome r c ((wan_cluster codec answer order).put r c))
  wan_cluster-IsStoreOn law = (store_laws law, λ r c. put-PutOutcome r c _ refl)
