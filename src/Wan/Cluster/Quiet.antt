-- ===== src/Wan/Cluster/Quiet.antt =====
-- What a node whose cluster is internal/wan/wan.go sends after it has published a record.
use lbsync.Prelude.{◌≡◌, ◌∙◌, refl, sym, ap, Text, same_refl, some, List, Result, ok, err}
use lbsync.Prelude.Dict.{Dict, lookup}
use lbsync.Engine.{Record, Provider, Engine, St}
use lbsync.Engine.Publish.Same.{maybe_publish-same}
use lbsync.Engine.Tick.{tick_key}
use lbsync.Engine.Tick.Merge.{cluster-apply_best}
use lbsync.Wan.{Codec, Backend, Message, Peers, get, put}
use lbsync.Wan.Keys.{NulFree}
use lbsync.Wan.Facade.{ReadsBack, get-put}
use lbsync.Wan.Cluster.{Wan, put_and_send, wan_cluster}

module _ (codec : Codec) (answer : Peers) (order : List Text → List Text) where
  -- The backend after a record was put into it.
  abbrev pub after_put : Record → Wan → Wan
  after_put r c = ((wan_cluster codec answer order).put r c).1

  get-after_put :
      (r : Record) (raw : Text) (c : Wan)
      → ReadsBack codec
      → codec.encode_record r ≡ ok raw
      → NulFree r.kind
      → get codec answer r.kind r.key (after_put r c).backend ≡ ok (some r)
  unfolding wan_cluster put_and_send
  get-after_put r raw c law e free =
      ap (λ (b : Backend). get codec answer r.kind r.key b)
        (backend-put_and_send (put codec r c.backend) c)
      ∙ get-put codec r raw answer r.kind r.key c.backend law e free free
      ∙ rw (same_refl r.kind, same_refl r.key)
    where
      backend-put_and_send :
          (x : Result (List Message) × Backend) (d : Wan) → (put_and_send codec x d).1.backend ≡ x.1
      backend-put_and_send (ok messages, b) d = refl
      backend-put_and_send (err e, b) d = refl

module _ {P : Type 0} (codec : Codec) (answer : Peers) (order : List Text → List Text) where
  -- An engine that runs on the backend.
  abbrev pub on_wan : Engine P Wan → Engine P Wan
  on_wan e = record e { cluster = wan_cluster codec answer order }

  tick_key-found :
      (e : Engine P Wan) (p : Provider P) (m : Dict Record) (key : Text) (changed : List Text)
      (s : St P Wan) (r : Record)
      → lookup m key ≡ some r
      → get codec answer p.kind key s.cluster.backend ≡ ok (some r)
      → (tick_key (on_wan e) p m key changed s).1.cluster ≡ s.cluster
  unfolding tick_key wan_cluster
  tick_key-found e p m key changed s r mine found =
      (cluster-apply_best (on_wan e) p key _ changed _).0
      ∙ rw (mine, found, maybe_publish-same (on_wan e) p.kind key r s)

  -- After a node has put its record into the backend, the engine's next round for that key leaves the
  -- backend and what it has sent as they are, whichever messages were lost, as long as the node has
  -- the same record. The codec reads back what it wrote, the record can be encoded, its kind is that
  -- of the provider and holds no zero byte.
  pub tick_key-quiet :
      (e : Engine P Wan) (p : Provider P) (m : Dict Record) (changed : List Text) (s : St P Wan)
      (c : Wan) (r : Record) (raw : Text)
      → ReadsBack codec
      → codec.encode_record r ≡ ok raw
      → NulFree r.kind
      → r.kind ≡ p.kind
      → lookup m r.key ≡ some r
      → s.cluster ≡ after_put codec answer order r c
      → (tick_key (on_wan e) p m r.key changed s).1.cluster ≡ s.cluster
  tick_key-quiet e p m changed s c r raw law enc free of mine put_ =
      tick_key-found e p m r.key changed s r mine (
        ap (λ (k : Text). get codec answer k r.key s.cluster.backend) (sym of)
        ∙ ap (λ (d : Wan). get codec answer r.kind r.key d.backend) put_
        ∙ get-after_put codec answer order r raw c law enc free)
