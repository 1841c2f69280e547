-- ===== src/Tests/Runs.antt =====
-- The engine on the maps of the cluster, with blob providers.
use mathlib.Core.Path.{subst}
use lbsync.Prelude.{
  ℕ, false, ◌≡◌, ◌&&◌, refl, inl, inr, Bool-cases, Text, text, same, Option, some, [], ◌∷◌, err,
  message, List, ok, pos, true, none, ◌==◌, Result, contains, ◌++◌, ap, sym, ok-injective,
  if◌then◌else◌,
}
use lbsync.Prelude.Dict.{lookup}
use lbsync.Engine.{ClusterKv, Record, Engine, St}
use lbsync.Engine.Fleet.{Fleet, in_order, in_order-Advances}
use lbsync.Engine.Store.Guarded.{IsStoreOn, IsStoreOn-IsForward}
use lbsync.Engine.Store.Advance.{Advances}
use lbsync.Prelude.{All, Bool, ltb, length, arith}
use lbsync.Version.{newer}
use lbsync.Prelude.Dict.{insert, keys}
use lbsync.Engine.{Provider, pick_newer}
use lbsync.Engine.Gather.{or_empty, locals_of, index_locals, gather_keys, add_unseen}
use lbsync.Engine.Gather.Union.{Mentions}
use lbsync.Engine.Tick.Node.{node-tick_provider}
use lbsync.Engine.Tick.{tick_key, tick_provider}
use lbsync.Engine.Tick.Unread.{TakesWrites, unread_regresses}
use lbsync.Engine.Tick.Advance.{GivesPlain}
use lbsync.Blob.{BlobState, Resource, start, add_resources, make_resource, provider}
use lbsync.Blob.{Env, Blobs, flush}
use lbsync.Blob.Flush.{Runs, Verdict, flush-Runs}
use lbsync.Blob.Local.{Listed, local-FromResource}
use lbsync.Cluster.{Cluster, olric_cluster, put}
use lbsync.Cluster.Put.{held_record}
use lbsync.Cluster.Plain.{Answers, Plain, PlainPlace}
use lbsync.Cluster.Plain.Write.{put-Change}
use lbsync.Cluster.Plain.Found.{FoundAfter, put-FoundAfter}
use lbsync.Cluster.Plain.Store.{Readable, Valid, Change-Valid, olric_cluster-IsStoreOn}
use lbsync.Metrics.Accepted.{AllValid, Accepts, tick_provider-Accepts}
use lbsync.Metrics.{Collector}
use lbsync.Tests.Fixtures.{
  codec-ReadsBack, env, blobs, site, node_with, small, Table, table, engine, begin, view,
  table-IsStore,
}
use lbsync.Tests.Maps.{
  Maps, maps, held, maps-IsOlric, key_codec, key_codec-ReadsKeys, unlisted, olric_engine,
  on_unlisted, start_maps, two_keys, put_succeeds,
}

maps-Answers : Answers maps held
maps-Answers = record {
  new_dmap_ok = λ k o. refl;
  dm_get_eq = λ k j o. refl;
  view-dm_put = λ k j raw o k' j'. inl refl;
  view-members = λ o k j. refl;
}

abbrev records : Cluster Maps → Text → Text → Option Record
records = held_record key_codec maps held maps-IsOlric

abbrev AllRead : Cluster Maps → Type 0
AllRead = Valid key_codec maps held maps-IsOlric maps-Answers

olric_cluster-IsStoreOn_example :
    IsStoreOn (olric_cluster key_codec maps) records AllRead PlainPlace
olric_cluster-IsStoreOn_example =
    olric_cluster-IsStoreOn key_codec maps held maps-IsOlric maps-Answers key_codec-ReadsKeys
      codec-ReadsBack

-- Every record of these maps can be read.
two_keys-AllRead : AllRead two_keys
two_keys-AllRead =
    let r : Record = record (small 3 (text "x")) { key = text "j" } in
    let c : Cluster Maps = record { db = start_maps; dmaps = [] } in
    Change-Valid key_codec maps held maps-IsOlric maps-Answers r c (put key_codec maps r c).1
      (put-Change key_codec maps held maps-IsOlric maps-Answers r c codec-ReadsBack)
      (λ k j plain. unfold Readable in tt)

put-FoundAfter_example :
    FoundAfter key_codec maps held maps-IsOlric maps-Answers
      (small 5 (text "y"))
      two_keys
      (put key_codec maps (small 5 (text "y")) two_keys).1
      (text "b")
      (text "j")
put-FoundAfter_example =
    put-FoundAfter key_codec maps held maps-IsOlric maps-Answers (small 5 (text "y")) two_keys
      (text "b") (text "j") key_codec-ReadsKeys codec-ReadsBack two_keys-AllRead
      (unfold same in (refl, refl, λ key. refl)) (unfold same in (refl, refl, λ key. refl))
      put_succeeds

site-Plain : Plain (text "site")
unfolding same
site-Plain = (refl, refl, λ key. refl)

-- Every resource of the provider is named "site".
named_site : (r : Resource) → Listed blobs.resources r → Plain r.name
unfolding start add_resources make_resource
named_site r (inl e) = subst (λ (x : Resource). Plain x.name) e site-Plain
named_site r (inr empty) = absurd empty

blobs-GivesPlain : GivesPlain PlainPlace (provider env blobs)
unfolding provider
blobs-GivesPlain node r given =
    let (x, listed, (d, blob, hash, kind, key)) = local-FromResource env blobs node r given in
    (kind, rw key (named_site x listed))

unlisted-AllRead : AllRead unlisted
unfolding Readable
unlisted-AllRead k j plain = elim (Bool-cases (same (text "blob") k && same (text "k") j)) [
  | inl m ↦ rw m (small 5 [], refl)
  | inr m ↦ rw m tt
]

abbrev served : Engine BlobState (Cluster Maps)
served = record olric_engine { providers = provider env blobs ∷ [] }

-- Node 0 has other content than the other nodes.
abbrev two_nodes : Fleet BlobState (Cluster Maps)
two_nodes = record {
  nodes = λ i. record on_unlisted {
    node = if i == 0 then node_with (text "one") else node_with (text "two");
  };
  shared = unlisted;
}

abbrev both_run : List (ℕ × ℕ)
both_run = (0, 1) ∷ (1, 2) ∷ (0, 0) ∷ []

in_order-Advances_example :
    AllRead (in_order (λ i. served) both_run two_nodes).shared
    × ((k j : Text)
        → Plain j
        → Advances
            (records unlisted k j)
            (records (in_order (λ i. served) both_run two_nodes).shared k j))
in_order-Advances_example =
    in_order-Advances (λ i. served) records AllRead PlainPlace
      (λ i. IsStoreOn-IsForward (
        olric_cluster-IsStoreOn key_codec maps held maps-IsOlric maps-Answers key_codec-ReadsKeys
          codec-ReadsBack))
      both_run two_nodes unlisted-AllRead (λ i. (blobs-GivesPlain, tt))

-- A cluster that cannot be read. It holds version 3, and the node has version 2.
abbrev unreadable : ClusterKv Table
unreadable = record table { get = λ k j c. (err (message (text "timeout")), c) }

abbrev blind : Engine BlobState Table
blind = record engine { cluster = unreadable }

abbrev two : Record
two = record (small 2 []) { kind = text "blob" }

abbrev newer_held : St BlobState Table
newer_held = record (begin (node_with [])) {
  cluster = λ k j. some (record (small 3 []) { kind = text "blob" });
}

unreadable-TakesWrites : TakesWrites blind view
unreadable-TakesWrites = record {
  unread = λ k j c. (message (text "timeout"), refl);
  view-get = λ k j c k' j'. refl;
  view-lock = λ k j ttl c k' j'. refl;
  view-release =
      λ k j ttl c d release k' j' h. ap (λ (f : Table → Table). f d k' j') (sym (ok-injective h));
  view-put = λ r c k' j'. refl;
}

unread_regresses_example :
    let now =
      (tick_key blind
        (provider env blobs)
        ((text "k", two) ∷ [])
        (text "k")
        []
        newer_held).1.cluster in
    ¬ Advances (some (record (small 3 []) { kind = text "blob" })) (now (text "blob") (text "k"))
    × ((k j : Text)
        → now k j ≡ (
            if same (text "blob") k && same (text "k") j
            then some two
            else some (record (small 3 []) { kind = text "blob" })))
unread_regresses_example =
    unread_regresses blind view unreadable-TakesWrites (provider env blobs) ((text "k", two) ∷ [])
      [] newer_held two (record (small 3 []) { kind = text "blob" }) (unfold lookup same in refl)
      refl (unfold newer in refl)

-- A provider that keeps a log of its calls, reports every record as a change, and cannot flush.
abbrev Log : Type 0
Log = List Text

abbrev logging : Provider Log
logging = record {
  kind = text "b";
  local = λ l. (ok (small 2 [] ∷ []), l);
  apply = λ r l. (ok true, l ++ (r.key ∷ []));
  flush = λ l. (err (message (text "reload")), l ++ (text "flush" ∷ []));
  rollback = λ ks l. (ok tt, l ++ (text "rollback" ∷ ks));
}

abbrev log_engine : Engine Log Table
log_engine = record {
  cluster = table;
  providers = logging ∷ [];
  interval = pos 30;
  lock_ttl = pos 10;
  has_metrics = true;
  now = λ n. pos n;
  range_order = λ ks. ks;
}

-- The cluster holds version 3 of the key that the node has, and a record of another key.
abbrev logged : St Log Table
logged = record {
  node = [];
  cluster = λ k j.
      if same (text "k") j then some (small 3 []) else some (record (small 1 []) { key = j });
  readings = 0;
  events = [];
}

small_kinds : (r : Record) → Mentions (or_empty (logging.local []).0) r → r.kind ≡ text "b"
small_kinds r (inl e) = ap (λ (x : Record). x.kind) (sym e)
small_kinds r (inr empty) = absurd empty

node-tick_provider_example :
    (tick_provider log_engine logging logged).node
    ≡ text "k" ∷ text "site" ∷ text "flush" ∷ text "rollback" ∷ text "k" ∷ text "site" ∷ []
unfolding same pick_newer newer lookup locals_of index_locals gather_keys add_unseen insert keys
    contains
node-tick_provider_example =
    node-tick_provider log_engine view table-IsStore (λ r c. refl) logging logged (λ ks k. refl)
      small_kinds

-- Two resources with a verify command each, of which the first to be run fails.
abbrev failing_first : Env
failing_first = record env {
  commands = λ n args ttl. if n == 0 then some (message (text "exit status 1")) else none;
}

abbrev two_blobs : Blobs
two_blobs =
    start false
      (record site { verify = text "check" ∷ [] }
        ∷ record site { name = text "other"; dest = text "/o"; verify = text "check" ∷ [] }
        ∷ [])
      (text "host")

abbrev both_pending : BlobState
both_pending = record (node_with []) { pending = (text "site", tt) ∷ (text "other", tt) ∷ [] }

flush-Runs_example :
    let (r, t) = flush failing_first two_blobs both_pending in
    (ends : List (Result (Unit {0}))) × Runs failing_first two_blobs
      (text "site" ∷ text "other" ∷ [])
      both_pending.machine
      ends
      t.machine
    × Verdict failing_first two_blobs both_pending ends r t
unfolding keys
flush-Runs_example = flush-Runs failing_first two_blobs both_pending

-- Texts of ASCII characters, which are valid UTF-8.
abbrev ascii : Text → Bool
ascii [] = true
ascii (c ∷ cs) = ltb c 128 && ascii cs

-- As many values as labels, all of ASCII characters.
abbrev fits : List Text → List Text → Bool
fits [] [] = true
fits [] (v ∷ values) = false
fits (label ∷ labels) [] = false
fits (label ∷ labels) (v ∷ values) = ascii v && fits labels values

abbrev takes : Collector → List Text → Bool
takes c values = fits c.labels values

fits_valid :
    (labels values : List Text)
    → length labels ≡ length values
    → AllValid ascii values
    → fits labels values ≡ true
fits_valid [] [] e valid = refl
fits_valid [] (v ∷ values) e valid = absurd (omega (arith, e))
fits_valid (label ∷ labels) [] e valid = absurd (omega (arith, e))
fits_valid (label ∷ labels) (v ∷ values) e valid =
    rw valid.0 (fits_valid labels values (omega (arith, e)) valid.1)

takes_valid :
    (c : Collector) (values : List Text)
    → length c.labels ≡ length values
    → AllValid ascii values
    → takes c values ≡ true
takes_valid c values e valid = fits_valid c.labels values e valid

tick_provider-Accepts_example :
    All (Accepts ascii takes takes_valid) (tick_provider log_engine logging logged).events
tick_provider-Accepts_example =
    tick_provider-Accepts ascii takes takes_valid log_engine logging logged refl
      (unfold gather_keys locals_of index_locals add_unseen same contains keys insert in
        (refl, (refl, tt)))
      tt
