-- ===== src/Wan/Cluster.antt =====
-- The backend of internal/wan/wan.go as the cluster of an engine.
--
-- Its state is the backend with the messages that were sent so far. The answers of the peers are
-- given, and stay the same as long as the engine runs.
pub mod Quiet
pub mod Store
use lbsync.Prelude.{Text, List, ◌++◌, Result, ok, err}
use lbsync.Engine.{ClusterKv}
use lbsync.Wan.{Codec, Backend, Message, Peers, get, put, all_keys, members}

pub record Wan : Type 0 where
  pub backend : Backend
  pub sent : List Message

module _ (codec : Codec) where
  -- b.Put, with the messages of its fan-out.
  unfoldable pub put_and_send : Result (List Message) × Backend → Wan → Result (Unit {0}) × Wan
  put_and_send (ok messages, b) c = (ok tt, record { backend = b; sent = c.sent ++ messages })
  put_and_send (err e, b) c = (err e, record c { backend = b })

  -- Backend satisfies engine.ClusterKV; b.Lock and its release do nothing.
  unfoldable pub wan_cluster : Peers → (List Text → List Text) → ClusterKv Wan
  wan_cluster answer range_order = record {
    get = λ kind key c. (get codec answer kind key c.backend, c);
    put = λ r c. put_and_send (put codec r c.backend) c;
    keys = λ kind c. (ok (all_keys codec answer range_order kind c.backend), c);
    lock = λ kind key ttl c. (ok (λ d. d), c);
    members = λ c. (members codec answer c.backend.peers, c);
  }
