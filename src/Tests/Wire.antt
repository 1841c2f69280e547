-- ===== src/Tests/Wire.antt =====
-- The theorems on the cluster backends on small records.
use mathlib.Core.List.{Permᴰ}
use mathlib.Core.Path.{subst}
use lbsync.Version.{Version}
use lbsync.Wan.Order.{deliver_all, deliver_all-perm}
use lbsync.Prelude.{
  ℕ, Text, pos, true, false, ◌≡◌, refl, text, same, none, some, List, [], ◌∷◌, ◌++◌, map, All, ok,
  inl, inr,
}
use lbsync.Engine.{Record, Provider, Engine, St}
use lbsync.Engine.Tick.{tick_key}
use lbsync.Prelude.Dict.{lookup}
use lbsync.Wan.Cluster.{Wan, wan_cluster}
use lbsync.Wan.Cluster.Quiet.{on_wan, after_put, tick_key-quiet}
use lbsync.Wan.{Backend, Peers, Message, put, handle_put_record, put_record}
use lbsync.Wan.Keys.{NulFree}
use lbsync.Wan.Handler.{held, Merges, handle_put_record-merged}
use lbsync.Wan.Facade.{Carries, peer_of, put-Carries}
use lbsync.Engine.Store.Advance.{Advances}
use lbsync.Engine.Store.Guarded.{IsStoreOn}
use lbsync.Engine.Tick.Advance.{GivesPlain}
use lbsync.Wan.Node.{Happening, tick, asked, own, live, live-Advances}
use lbsync.Wan.Cluster.Store.{seen, Readable, NulFreePlace, PutOutcome, wan_cluster-IsStoreOn}
use lbsync.Tests.Fixtures.{codec, codec-ReadsBack, small, avoids-All}

-- A node that holds version 3.
abbrev backend : Backend
backend = record {
  addr = text "a:1";
  peers = text "b:1" ∷ text "c:1" ∷ [];
  store = (text "b" ++ (0 ∷ text "k"), 98 ∷ 107 ∷ 3 ∷ 0 ∷ []) ∷ [];
}

b-NulFree : NulFree (text "b")
b-NulFree = avoids-All 0 (text "b") refl

-- An older record is pushed.
handle_put_record-merged_example :
    Merges codec
      (small 2 [])
      backend
      (text "b")
      (text "k")
      (handle_put_record codec (ok (98 ∷ 107 ∷ 2 ∷ 0 ∷ [])) backend)
handle_put_record-merged_example =
    handle_put_record-merged codec (98 ∷ 107 ∷ 2 ∷ 0 ∷ []) (small 2 []) backend (text "b")
      (text "k") refl b-NulFree b-NulFree

abbrev silent : Peers
silent peer request = none

abbrev sent : List Message
sent =
    record { peer = text "b:1"; raw = 98 ∷ 107 ∷ 4 ∷ 0 ∷ [] }
    ∷ record { peer = text "c:1"; raw = 98 ∷ 107 ∷ 4 ∷ 0 ∷ [] }
    ∷ []

put-Carries_example :
    (map (peer_of codec) sent ≡ text "b:1" ∷ text "c:1" ∷ [])
    × All (Carries codec (small 4 []) backend (text "b") (text "k")) sent
unfolding put
put-Carries_example =
    put-Carries codec (small 4 []) backend sent backend (text "b") (text "k") codec-ReadsBack
      b-NulFree b-NulFree refl

-- A provider of the kind "b" that never changes anything.
abbrev idle : Provider (Unit {0})
idle = record {
  kind = text "b";
  local = λ s. (ok [], s);
  apply = λ r s. (ok false, s);
  flush = λ s. (ok tt, s);
  rollback = λ ks s. (ok tt, s);
}

abbrev wan_state : Wan
wan_state = record { backend = backend; sent = [] }

abbrev wan_engine : Engine (Unit {0}) Wan
wan_engine = record {
  cluster = wan_cluster codec silent (λ ks. ks);
  providers = [];
  interval = pos 30;
  lock_ttl = pos 10;
  has_metrics = true;
  now = λ n. pos n;
  range_order = λ ks. ks;
}

abbrev published : St (Unit {0}) Wan
published = record {
  node = tt;
  cluster = after_put codec silent (λ ks. ks) (small 4 []) wan_state;
  readings = 0;
  events = [];
}

-- Both peers were down when version 4 was put.
tick_key-quiet_example :
    (tick_key
      (on_wan codec silent (λ ks. ks) wan_engine)
      idle
      ((text "k", small 4 []) ∷ [])
      (text "k")
      []
      published).1.cluster
    ≡ published.cluster
unfolding lookup same
tick_key-quiet_example =
    tick_key-quiet codec silent (λ ks. ks) wan_engine idle ((text "k", small 4 []) ∷ []) []
      published wan_state (small 4 []) (98 ∷ 107 ∷ 4 ∷ 0 ∷ []) codec-ReadsBack refl b-NulFree refl
      refl refl

abbrev named : Version → Record
named v = record {
  kind = text "b";
  key = text "k";
  version = v;
  blobs = [];
  meta = [];
  source = [];
}

abbrev body : ℕ → Text
body p = 98 ∷ 107 ∷ p ∷ 0 ∷ []

-- Versions 4 and 5 arrive in either order.
deliver_all-perm_example :
    held codec (deliver_all codec (body 4 ∷ body 5 ∷ []) backend) (text "b") (text "k")
    ≡ held codec (deliver_all codec (body 5 ∷ body 4 ∷ []) backend) (text "b") (text "k")
deliver_all-perm_example =
    deliver_all-perm codec named (body 4 ∷ body 5 ∷ []) (body 5 ∷ body 4 ∷ []) backend (text "b")
      (text "k") (Permᴰ.swap refl refl)
      ((small 4 [], refl, refl, b-NulFree), ((small 5 [], refl, refl, b-NulFree), tt)) b-NulFree

-- Every peer answers with version 3.
abbrev talkative : Peers
talkative peer request = some (record { status = 200; body = b'b' ∷ b'k' ∷ 3 ∷ 0 ∷ [] })

wan_cluster-IsStoreOn_example :
    IsStoreOn
      (wan_cluster codec talkative (λ ks. ks))
      (seen codec talkative (λ ks. ks))
      (Readable codec talkative (λ ks. ks))
      NulFreePlace
    × ((r : Record) (c : Wan)
        → PutOutcome codec talkative
            (λ ks. ks)
            r
            c
            ((wan_cluster codec talkative (λ ks. ks)).put r c))
wan_cluster-IsStoreOn_example = wan_cluster-IsStoreOn codec talkative (λ ks. ks) codec-ReadsBack

-- A provider that has version 2, on a node whose store has version 3.
abbrev giving : Provider (Unit {0})
giving = record idle { local = λ s. (ok (small 2 [] ∷ []), s) }

giving-GivesPlain : GivesPlain NulFreePlace giving
giving-GivesPlain node r (inl e) =
    subst (λ (x : Record). (x.kind ≡ text "b") × NulFree x.kind) e (refl, b-NulFree)
giving-GivesPlain node r (inr empty) = absurd empty

abbrev wan_node : St (Unit {0}) Wan
wan_node = record published { cluster = wan_state }

abbrev pushed : ℕ → Happening
pushed n = asked (put_record (ok (b'b' ∷ b'k' ∷ n ∷ 0 ∷ [])))

live-Advances_example : Advances (held codec backend (text "b") (text "k")) (
    own codec
      (live codec
        (λ ks. ks)
        (record wan_engine { providers = giving ∷ [] })
        (pushed 1 ∷ tick silent ∷ pushed 4 ∷ tick talkative ∷ [])
        wan_node).cluster
      (text "b")
      (text "k"))
live-Advances_example =
    live-Advances codec (λ ks. ks) (record wan_engine { providers = giving ∷ [] })
      (pushed 1 ∷ tick silent ∷ pushed 4 ∷ tick talkative ∷ []) wan_node (text "b") (text "k")
      codec-ReadsBack (giving-GivesPlain, tt) b-NulFree
