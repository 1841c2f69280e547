-- ===== src/Blob/Local.antt =====
-- The records that `Local` of internal/modules/blob/blob.go gives, and a fleet of blob providers.
use mathlib.Core.Path.{subst}
use lbsync.Prelude.{
  same, ℤ, ◌≡◌, ◌⊎◌, inl, inr, refl, ap, Text, text, Option, none, some, List, [], ◌∷◌, Result, ok,
  err,
}
use lbsync.Prelude.Dict.{lookup}
use lbsync.Engine.{Record}
use lbsync.Engine.Gather.{or_empty}
use lbsync.Engine.Gather.Union.{Mentions}
use lbsync.Engine.Tick.Converge.{Member, IsOfKind}
use lbsync.Disk.{read_file}
use lbsync.Hook.{Machine}
use lbsync.Blob.{
  Env, record_read, and_more, Blobs, BlobState, Resource, blob_kind, mtime_of, make_record,
  read_source, read_sources, local, provider,
}

abbrev pub Listed : List Resource → Resource → Type 0
Listed [] r = ⊥
Listed (a ∷ rs) r = (a ≡ r) ⊎ Listed rs r

module _ (v : Env) (p : Blobs) where
  -- `a` is a record of the resource `r`: its key is the name of the resource, and its hash that of
  -- its one blob.
  abbrev pub IsRecordOf : Resource → Record → Type 0
  IsRecordOf r a =
      (data_ : Text) × (lookup a.blobs (text "data") ≡ some data_)
      × (a.version.tiebreak ≡ v.sha256_hex data_)
      × (a.kind ≡ blob_kind)
      × (a.key ≡ r.name)

  abbrev pub FromResource : List Resource → Record → Type 0
  FromResource rs a = (r : Resource) × Listed rs r × IsRecordOf r a

  make_record-IsRecordOf :
      (r : Resource) (data_ : Text) (t : ℤ) → IsRecordOf r (make_record v p r data_ t)
  unfolding make_record lookup same
  make_record-IsRecordOf r data_ t = (data_, refl, refl, refl, refl)

  record_read-IsRecordOf :
      (r : Resource) (read : Result Text) (m : Machine) (a : Record)
      → (record_read v p r read m).0 ≡ some a
      → IsRecordOf r a
  unfolding record_read
  record_read-IsRecordOf r (err e) m a h = absurd (cc)
  record_read-IsRecordOf r (ok data_) m a h =
      let e : make_record v p r data_ (mtime_of v p r m).0 ≡ a = cc in
      subst (λ (x : Record). IsRecordOf r x) e (make_record-IsRecordOf r data_ _)

  and_more-FromResource :
      (r : Resource) (rs : List Resource) (one : Option Record) (recs : List Record) (a : Record)
      → (one ≡ some a → IsRecordOf r a)
      → (Mentions recs a → FromResource rs a)
      → Mentions (and_more one recs) a
      → FromResource (r ∷ rs) a
  and_more-FromResource r rs none recs a first rest h =
      let (x, listed, is) = rest h in (x, inr listed, is)
  and_more-FromResource r rs (some b) recs a first rest (inl e) = (r, inl refl, first (ap some e))
  and_more-FromResource r rs (some b) recs a first rest (inr h) =
      let (x, listed, is) = rest h in (x, inr listed, is)

  read_source-IsRecordOf :
      (r : Resource) (m : Machine) (a : Record) → (read_source v p r m).0 ≡ some a → IsRecordOf r a
  unfolding read_source
  read_source-IsRecordOf r m a = record_read-IsRecordOf r (read_file v.os r.source m.disk).0 _ a

  read_sources-FromResource :
      (rs : List Resource) (m : Machine) (a : Record)
      → Mentions (read_sources v p rs m).0 a
      → FromResource rs a
  unfolding read_sources
  read_sources-FromResource [] m a h = absurd h
  read_sources-FromResource (r ∷ rs) m a h =
      and_more-FromResource r rs (read_source v p r m).0 _ a (read_source-IsRecordOf r m a)
        (read_sources-FromResource rs (read_source v p r m).1 a) h

  -- Every record that the provider gives is of one of its resources: it bears the module's kind and
  -- the name of the resource, and its tiebreak is the hash of the bytes that it carries.
  pub local-FromResource :
      (s : BlobState) (a : Record)
      → Mentions (or_empty (local v p s).0) a
      → FromResource p.resources a
  unfolding local
  local-FromResource s a = read_sources-FromResource p.resources s.machine a

-- A node of a fleet that runs the blob module.
abbrev pub blob_member : Env → Blobs → BlobState → Member BlobState
blob_member v p s = record { provider = provider v p; node = s }

pub blob_member-IsOfKind :
    (v : Env) (p : Blobs) (s : BlobState) → IsOfKind blob_kind (blob_member v p s)
unfolding provider
blob_member-IsOfKind v p s = (
  refl,
  λ r given. let (x, listed, (d, blob, hash, kind, key)) = local-FromResource v p s r given in kind,
)
