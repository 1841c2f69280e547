-- ===== src/Wan/Node.antt =====
-- A node in WAN mode: the ticks of its engine (internal/engine/engine.go) on its backend
-- (internal/wan/wan.go), and the requests of its peers (internal/wan/handler.go) between them.
use lbsync.Prelude.{
  ◌≡◌, ◌∙◌, ◌⊎◌, refl, sym, ap, Text, same, same_iff, Bool-cases, inl, inr, Option, none, some,
  List, [], ◌∷◌, Result, ok, err, All, ok-injective, ◌&&◌, if◌then◌else◌,
}
use lbsync.Prelude.Dict.{lookup, insert, lookup-insert}
use lbsync.Version.{newer}
use lbsync.Engine.{Record, Engine, St}
use lbsync.Engine.Store.{written}
use lbsync.Engine.Store.Advance.{
  Beats, Beats-none, Beats-some, Beats-Advances, Advances, Advances-refl, Advances-trans,
}
use lbsync.Engine.Store.Guarded.{answered, IsForward}
use lbsync.Engine.Tick.{reconcile}
use lbsync.Engine.Tick.Advance.{GivesPlain, reconcile-Moves}
use lbsync.Wan.{
  Codec, Backend, Peers, Request, put_record, get_record, get_keys, ping, store_key, get, put,
  handle_put_record, serve,
}
use lbsync.Wan.Keys.{NulFree}
use lbsync.Wan.Facade.{ReadsBack}
use lbsync.Wan.Handler.{decoded_err, decoded, decoded_ok, held, held-insert}
use lbsync.Wan.Cluster.{Wan, put_and_send, wan_cluster}
use lbsync.Wan.Cluster.Quiet.{on_wan}
use lbsync.Wan.Cluster.Store.{NulFreePlace}

-- What happens to a node: a tick, during which its peers give these answers, or a request of a peer.
pub data Happening : Type 0 where
  tick : Peers → Happening
  asked : Request → Happening

module _ (codec : Codec) where
  push_found :
      (b : Backend) (rec : Record) (body sk : Text) (o : Option Text)
      → lookup b.store (store_key rec.kind rec.key) ≡ o
      → codec.decode_record body ≡ ok rec
      → Beats rec (decoded codec o)
      → Advances
          (decoded codec (lookup b.store sk))
          (decoded codec (lookup (insert b.store (store_key rec.kind rec.key) body) sk))
  push_found b rec body sk o h good beats =
      rw (lookup-insert b.store (store_key rec.kind rec.key) body sk)
        (elim (Bool-cases (same (store_key rec.kind rec.key) sk)) [
          | inr m ↦ rw m (Advances-refl _)
          | inl m ↦
              rw
                (
                  m,
                  decoded_ok codec body rec good,
                  ← (same_iff (store_key rec.kind rec.key) sk).0 m,
                  h,
                )
                (Beats-Advances rec (decoded codec o) beats)
        ])

  -- A push, whatever its body and the kind and key in it.
  push-Advances :
      (body : Result Text) (b : Backend) (sk : Text)
      → Advances
          (decoded codec (lookup b.store sk))
          (decoded codec (lookup (handle_put_record codec body b).1.store sk))
  push-Advances (err e) b sk = unfold handle_put_record in Advances-refl _
  push-Advances (ok body) b sk = by_body (codec.decode_record body) refl
    where
      Goal : Type 0
      Goal =
          Advances (decoded codec (lookup b.store sk))
            (decoded codec (lookup (handle_put_record codec (ok body) b).1.store sk))

      by_old :
          (rec : Record) (raw : Text) (old : Result Record)
          → codec.decode_record body ≡ ok rec
          → lookup b.store (store_key rec.kind rec.key) ≡ some raw
          → codec.decode_record raw ≡ old
          → Goal
      by_old rec raw (err x) good h bad =
          unfold handle_put_record in
          rw (good, h, bad, handle_put_record)
            (push_found b rec body sk (some raw) h good
              (rw (decoded_err codec raw x bad) (Beats-none rec)))
      by_old rec raw (ok old) good h e = elim (Bool-cases (newer rec.version old.version)) [
        | inl n ↦
            unfold handle_put_record in
            rw (good, h, e, n, handle_put_record)
              (push_found b rec body sk (some raw) h good
                (rw (decoded_ok codec raw old e) (Beats-some rec old n)))
        | inr n ↦
            unfold handle_put_record in rw (good, h, e, n, handle_put_record) (Advances-refl _)
      ]

      by_found :
          (rec : Record) (o : Option Text)
          → codec.decode_record body ≡ ok rec
          → lookup b.store (store_key rec.kind rec.key) ≡ o
          → Goal
      by_found rec none good h =
          unfold handle_put_record in
          rw (good, h, handle_put_record)
            (push_found b rec body sk none h good (unfold decoded in Beats-none rec))
      by_found rec (some raw) good h = by_old rec raw _ good h refl

      by_body : (r : Result Record) → codec.decode_record body ≡ r → Goal
      by_body (err x) e = unfold handle_put_record in rw (e, handle_put_record) (Advances-refl _)
      by_body (ok rec) e = by_found rec _ e refl

  abbrev pub own : Wan → Text → Text → Option Record
  own c = held codec c.backend

  get_sees :
      (answer : Peers) (k j : Text) (b : Backend)
      → Advances (held codec b k j) (answered (get codec answer k j b))
  unfolding held get
  get_sees answer k j b = by_found (lookup b.store (store_key k j)) refl
    where
      by_raw :
          (raw : Text) (r : Result Record)
          → lookup b.store (store_key k j) ≡ some raw
          → codec.decode_record raw ≡ r
          → Advances (held codec b k j) (answered (get codec answer k j b))
      by_raw raw (err x) h bad = unfold held get in rw (h, decoded_err codec raw x bad) tt
      by_raw raw (ok r) h e =
          unfold held get in rw (h, decoded_ok codec raw r e, get, e) (Advances-refl (some r))

      by_found :
          (o : Option Text)
          → lookup b.store (store_key k j) ≡ o
          → Advances (held codec b k j) (answered (get codec answer k j b))
      by_found none h = unfold held get decoded in rw h tt
      by_found (some raw) h = by_raw raw _ h refl

  own-put :
      (r : Record) (c : Wan) (k j : Text) (x : Result Text)
      → ReadsBack codec
      → NulFree r.kind
      → NulFree k
      → codec.encode_record r ≡ x
      → (own (put_and_send codec (put codec r c.backend) c).1 k j ≡ written r k j (own c k j))
        ⊎ (own (put_and_send codec (put codec r c.backend) c).1 k j ≡ own c k j)
  unfolding put put_and_send
  own-put r c k j (err e) law free free' h = inr (rw (h, put, put_and_send) refl)
  own-put r c k j (ok raw) law free free' h = inl (
      rw (h, put, put_and_send)
        (held-insert codec r raw c.backend k j free free'
          ∙ ap (λ (o : Option Record). if same r.kind k && same r.key j then o else own c k j)
              (decoded_ok codec raw r (law r raw h))))

  -- The store of a node is not behind what Get answers.
  wan_cluster-IsForward :
      (answer : Peers) (order : List Text → List Text)
      → ReadsBack codec
      → IsForward (wan_cluster codec answer order) own (λ c. Unit {0}) NulFreePlace
  unfolding wan_cluster
  wan_cluster-IsForward answer order law = record {
    get_sees = λ k j c valid free. get_sees answer k j c.backend;
    get-Keeps = λ k j c valid. (tt, λ k' j' free. refl);
    keys-Keeps = λ k c valid. (tt, λ k' j' free. refl);
    members-Keeps = λ c valid. (tt, λ k' j' free. refl);
    lock-Keeps = λ k j ttl c valid. (tt, λ k' j' free. refl);
    release-Keeps = λ k j ttl c d release h valid.
        (tt, λ k' j' free. sym (ap (λ (f : Wan → Wan). own (f d) k' j') (ok-injective h)));
    put-Valid = λ r c valid free. tt;
    view-put_failed = λ r c k j valid free free'. own-put r c k j _ law free free' refl;
  }

  request-Advances :
      (order : List Text → List Text) (request : Request) (b : Backend) (k j : Text)
      → Advances (held codec b k j) (held codec (serve codec order request b).1 k j)
  unfolding serve held
  request-Advances order (put_record body) b k j = push-Advances body b (store_key k j)
  request-Advances order (get_record kind key) b k j = Advances-refl _
  request-Advances order (get_keys kind) b k j = Advances-refl _
  request-Advances order ping b k j = Advances-refl _

module _ {P : Type 0} (codec : Codec) (order : List Text → List Text) (e : Engine P Wan) where
  -- The handlers' answer to a request, with what it leaves in the store.
  abbrev pub after_request : Request → St P Wan → St P Wan
  after_request request s = record s {
    cluster = record s.cluster { backend = (serve codec order request s.cluster.backend).1 };
  }

  unfoldable pub live : List Happening → St P Wan → St P Wan
  live [] s = s
  live (tick answer ∷ more) s = live more (reconcile (on_wan codec answer order e) s)
  live (asked request ∷ more) s = live more (after_request request s)

  -- Whatever happens to a node in WAN mode, ticks of its engine and requests of its peers in any order,
  -- whatever the peers answer and whatever bodies they push: no record in its store is lost or replaced
  -- by an older one. The codec reads back what it wrote; the providers give records of their own kind
  -- only, and kinds hold no zero byte. Requests are handled between ticks.
  pub live-Advances :
      (happenings : List Happening) (s : St P Wan) (k j : Text)
      → ReadsBack codec
      → All (GivesPlain NulFreePlace) e.providers
      → NulFree k
      → Advances (own codec s.cluster k j) (own codec (live happenings s).cluster k j)
  unfolding live
  live-Advances [] s k j law gives free = Advances-refl _
  live-Advances (tick answer ∷ more) s k j law gives free =
      let ticked = reconcile (on_wan codec answer order e) s in
      Advances-trans (own codec s.cluster k j) (own codec ticked.cluster k j) _
        ((reconcile-Moves (on_wan codec answer order e) (own codec) (λ c. Unit {0}) NulFreePlace
            (wan_cluster-IsForward codec answer order law) s tt gives).1
          k j free)
        (live-Advances more ticked k j law gives free)
  live-Advances (asked request ∷ more) s k j law gives free =
      let served = after_request request s in
      Advances-trans (own codec s.cluster k j) (own codec served.cluster k j) _
        (request-Advances codec order request s.cluster.backend k j)
        (live-Advances more served k j law gives free)
