-- ===== src/Blob/Apply.antt =====
-- `Apply` of internal/modules/blob/blob.go: the destination and the pending hooks.
use lbsync.Prelude.{
  ℕ, ◌≡◌, refl, Text, text, same, same_refl, Bool, true, false, some, Result, ok, err,
}
use lbsync.Prelude.Dict.{lookup, lookup-insert}
use lbsync.Engine.{Record}
use lbsync.Disk.{File, at}
use lbsync.AtomicFile.{write_atomic}
use lbsync.AtomicFile.Write.{Reports, write_atomic-Reports}
use lbsync.Blob.{Env, Blobs, BlobState, Resource, or_nil, note_change, apply}

module _ (v : Env) (p : Blobs) where
  -- The file that a record asks for at the destination of its resource.
  abbrev pub file_of : Record → File
  file_of r = record { content = or_nil (lookup r.blobs (text "data")); perm = 420 }

  -- The hook of `key` is pending if the file was replaced; else the pending hooks stay.
  abbrev Pending : Text → Result Bool → BlobState → BlobState → Type 0
  Pending key (ok true) s t = lookup t.pending key ≡ some tt
  Pending key _ s t = t.pending ≡ s.pending

  abbrev pub Applied : Record → Resource → BlobState → Result Bool × BlobState → Type 0
  Applied r res s t =
      Reports t.0 (at s.machine.disk res.dest) (file_of r) (at t.1.machine.disk res.dest)
      × Pending r.key t.0 s t.1

  note_change-Applied :
      (r : Record) (res : Resource) (s s' : BlobState) (changed : Result Bool)
      → s'.pending ≡ s.pending
      → Reports changed (at s.machine.disk res.dest) (file_of r) (at s'.machine.disk res.dest)
      → Applied r res s (note_change v p r.key changed s')
  unfolding note_change
  note_change-Applied r res s s' (ok true) e h = (h, rw (lookup-insert, same_refl r.key))
  note_change-Applied r res s s' (ok false) e h = (h, e)
  note_change-Applied r res s s' (err x) e h = (h, e)

  -- Applying a record of a configured resource leaves its bytes at the destination, with the bits
  -- 0644, and the hook of the resource pending, if a change is reported; if none is, or an error,
  -- the destination and the pending hooks stay, and without an error the destination has the bytes.
  -- The temporary name is not the destination.
  pub apply-Applied :
      (r : Record) (res : Resource) (s : BlobState)
      → lookup p.by_name r.key ≡ some res
      → ((n : ℕ) → same (v.os.temp n res.dest) res.dest ≡ false)
      → Applied r res s (apply v p r s)
  unfolding apply
  apply-Applied r res s configured drawn =
      rw (configured, apply)
        (note_change-Applied r res s _
          (write_atomic v.os res.dest (file_of r).content 420 s.machine.disk).0 refl
          (write_atomic-Reports v.os res.dest (file_of r).content 420 drawn s.machine.disk))
