-- ===== src/Tests/Fixtures.antt =====
-- The files, records, clusters and codecs on which the theorems are tried.
use lbsync.Prelude.{
  ℕ, ◌≡◌, ◌≢◌, refl, sym, ap, ℤ, pos, negsuc, Text, text, same-append_longer, Bool, true, false,
  not, ◌&&◌, same, Option, none, some, [], ◌∷◌, ◌++◌, All, ◌==◌, Result, ok, err, message,
  err-ne-ok, ok-injective, arith, inl, if◌then◌else◌,
}
use lbsync.Prelude.Dict.{Dict}
use lbsync.Engine.{Record, ClusterKv, Engine, St}
use lbsync.Engine.Store.{written, IsStore}
use lbsync.Disk.{File, Disk, Os}
use lbsync.Hook.{Commands}
use lbsync.Blob.{Env, Blobs, BlobState, BlobResource, start}
use lbsync.Wan.{Codec}
use lbsync.Cluster.Start.{OlricConfig}
use lbsync.Wan.Facade.{ReadsBack}

-- A cluster that keeps its records in a function and never fails.
abbrev pub Table : Type 0
Table = Text → Text → Option Record

abbrev pub table : ClusterKv Table
table = record {
  get = λ k j c. (ok (c k j), c);
  put = λ r c. (ok tt, λ k j. written r k j (c k j));
  keys = λ k c. (ok (text "site" ∷ []), c);
  lock = λ k j ttl c. (ok (λ d. d), c);
  members = λ c. (1, c);
}

abbrev pub view : Table → Text → Text → Option Record
view c = c

pub table-IsStore : IsStore table view
table-IsStore = record {
  get_eq = λ k j c. refl;
  view-get = λ k j c k' j'. refl;
  view-keys = λ k c k' j'. refl;
  view-lock = λ k j ttl c k' j'. refl;
  view-release =
      λ k j ttl c d release k' j' h. sym (ap (λ (f : Table → Table). f d k' j') (ok-injective h));
  view-put = λ r c k j h. refl;
  view-put_failed = λ r c k j. inl refl;
}

abbrev pub nothing_held : Table
nothing_held k j = none

-- Files: every call succeeds, or the n-th fails.
abbrev pub calm : Os
calm = record {
  fault = λ n. none;
  torn = λ n. 0;
  temp = λ n path. path ++ text ".tmp";
  modified = λ n path. pos 5;
}

abbrev pub failing_at : ℕ → Os
failing_at n = record calm {
  fault = λ k. if k == n then some (message (text "no space")) else none;
}

pub drawn : (path : Text) (n : ℕ) → same (calm.temp n path) path ≡ false
drawn path n = same-append_longer path (text "tmp") b'.'

abbrev pub path_a : Text
path_a = text "/a"

abbrev pub old_file : File
old_file = record { content = text "old"; perm = 420 }

abbrev pub new_file : File
new_file = record { content = text "new"; perm = 384 }

abbrev pub one_file : Disk
one_file = record { files = (text "/a", old_file) ∷ []; calls = 0 }

abbrev pub saved_file : Disk
saved_file = record { files = (text "/a", new_file) ∷ (text "/a.bak", old_file) ∷ []; calls = 0 }

-- Blob providers whose source is the file /a.
abbrev pub quiet : Commands
quiet n args ttl = none

abbrev pub env : Env
env = record { os = calm; commands = quiet; sha256_hex = λ t. t; range_order = λ ks. ks }

abbrev pub site : BlobResource
site = record {
  name = text "site";
  source = text "/a";
  dest = text "/d";
  strategy = text "mtime";
  verify = [];
  reload = [];
}

abbrev pub blobs : Blobs
blobs = start false (site ∷ []) (text "host")

abbrev pub node_with : Text → BlobState
node_with content = record {
  machine = record {
    disk = record { files = (text "/a", record { content = content; perm = 420 }) ∷ []; calls = 0 };
    ran = [];
    reports = [];
  };
  pending = [];
}

abbrev pub engine : Engine BlobState Table
engine = record {
  cluster = table;
  providers = [];
  interval = pos 30;
  lock_ttl = pos 10;
  has_metrics = true;
  now = λ n. pos n;
  range_order = λ ks. ks;
}

abbrev pub begin : BlobState → St BlobState Table
begin node = record { node = node; cluster = nothing_held; readings = 0; events = [] }

-- A record of the kind "b", with the key "k".
abbrev pub small : ℕ → Text → Record
small p t = record {
  kind = text "b";
  key = text "k";
  version = record { primary = pos p; secondary = pos 0; tiebreak = t };
  blobs = [];
  meta = [];
  source = [];
}

-- A codec for records whose kind and key have one character, and that carry no data.
abbrev pub encode_fields : Text → Text → ℤ → ℤ → Text → Dict Text → Dict Text → Text → Result Text
encode_fields (k ∷ []) (j ∷ []) (pos p) (pos s) t [] [] [] = ok (k ∷ j ∷ p ∷ s ∷ t)
encode_fields kind key p s t b m source = err (message (text "unsupported"))

abbrev pub decode_fields : Text → Result Record
decode_fields (k ∷ j ∷ p ∷ s ∷ t) = ok (record {
  kind = k ∷ [];
  key = j ∷ [];
  version = record { primary = pos p; secondary = pos s; tiebreak = t };
  blobs = [];
  meta = [];
  source = [];
})
decode_fields raw = err (message (text "malformed"))

abbrev pub codec : Codec
codec = record {
  encode_record = λ r.
      encode_fields r.kind r.key r.version.primary r.version.secondary r.version.tiebreak r.blobs
        r.meta r.source;
  decode_record = decode_fields;
  encode_strings = λ ks. err (message (text "unsupported"));
  decode_strings = λ raw. err (message (text "unsupported"));
}

fields_read_back :
    (kind key : Text) (p s : ℤ) (t : Text) (b m : Dict Text) (source raw : Text)
    → encode_fields kind key p s t b m source ≡ ok raw
    → decode_fields raw
      ≡ ok (record {
        kind = kind;
        key = key;
        version = record { primary = p; secondary = s; tiebreak = t };
        blobs = b;
        meta = m;
        source = source;
      })
fields_read_back [] key p s t b m source raw h = absurd (err-ne-ok h)
fields_read_back (k ∷ l ∷ ks) key p s t b m source raw h = absurd (err-ne-ok h)
fields_read_back (k ∷ []) [] p s t b m source raw h = absurd (err-ne-ok h)
fields_read_back (k ∷ []) (j ∷ l ∷ js) p s t b m source raw h = absurd (err-ne-ok h)
fields_read_back (k ∷ []) (j ∷ []) (negsuc p) s t b m source raw h = absurd (err-ne-ok h)
fields_read_back (k ∷ []) (j ∷ []) (pos p) (negsuc s) t b m source raw h = absurd (err-ne-ok h)
fields_read_back (k ∷ []) (j ∷ []) (pos p) (pos s) t (x ∷ b) m source raw h = absurd (err-ne-ok h)
fields_read_back (k ∷ []) (j ∷ []) (pos p) (pos s) t [] (x ∷ m) source raw h = absurd (err-ne-ok h)
fields_read_back (k ∷ []) (j ∷ []) (pos p) (pos s) t [] [] (x ∷ source) raw h = absurd (err-ne-ok h)
fields_read_back (k ∷ []) (j ∷ []) (pos p) (pos s) t [] [] [] raw h =
    ap decode_fields (sym (ok-injective h))

pub codec-ReadsBack : ReadsBack codec
codec-ReadsBack r raw h =
    fields_read_back r.kind r.key r.version.primary r.version.secondary r.version.tiebreak r.blobs
      r.meta r.source raw h

-- No character of the text is `c`.
abbrev pub avoids : ℕ → Text → Bool
avoids c [] = true
avoids c (x ∷ t) = not (x == c) && avoids c t

pub avoids-All : (c : ℕ) (t : Text) → avoids c t ≡ true → All (λ x. x ≢ c) t
avoids-All c [] h = tt
avoids-All c (x ∷ t) h = (ground arith, avoids-All c t (ground arith))

-- The configuration of Olric that nothing is set in.
abbrev pub standard : OlricConfig
standard = record {
  bind_addr = [];
  bind_port = pos 3320;
  gossip_bind_addr = [];
  gossip_bind_port = pos 3322;
  advertise_port = pos 3322;
  advertise_addr = [];
  peers = [];
  authentication = none;
  secret_key = none;
  replica_count = pos 1;
  read_quorum = pos 1;
  write_quorum = pos 1;
}
