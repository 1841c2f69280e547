-- ===== src/Bundle/Files.antt =====
-- Reading and writing the files of a bundle (internal/bundle/bundle.go).
use lbsync.Prelude.{
  ℕ, Text, text, same, Bool, false, ◌||◌, some, List, [], ◌∷◌, ◌++◌, ok, err, if◌then◌else◌,
}
use lbsync.Prelude.Steps.{◌>>=◌, ◌>>◌, pure, or_wrap}
use lbsync.Paths.{join}
use lbsync.Disk.{Os, read_file, mkdir_all}
use lbsync.AtomicFile.{Io, write_atomic}
use lbsync.AtomicFile.Directory.{restore_dir}
use lbsync.Cert.{X509, load, load_key, primary_domain}
use lbsync.Bundle.{CertVersion}

-- CertFile, KeyFile, ChainFile and FullchainFile
abbrev pub cert_file : Text
cert_file = text "cert.pem"

abbrev pub key_file : Text
key_file = text "privkey.pem"

abbrev pub chain_file : Text
chain_file = text "chain.pem"

abbrev pub fullchain_file : Text
fullchain_file = text "fullchain.pem"

-- Bundle
pub record Bundle : Type 0 where
  pub lineage : Text
  pub domain : Text
  pub version : CertVersion
  pub cert_pem : Text
  pub key_pem : Text
  pub chain_pem : Text
  pub full_pem : Text

-- A file that WriteAtomic writes: its name, its bytes and its bits.
pub record Part : Type 0 where
  pub name : Text
  pub data_ : Text
  pub perm : ℕ

-- `files` in WriteAtomic. The bits are 0644, and 0600 for the key.
unfoldable pub parts_of : Bundle → List Part
parts_of b =
    record { name = cert_file; data_ = b.cert_pem; perm = 420 }
    ∷ record { name = key_file; data_ = b.key_pem; perm = 384 }
    ∷ record { name = chain_file; data_ = b.chain_pem; perm = 420 }
    ∷ record { name = fullchain_file; data_ = b.full_pem; perm = 420 }
    ∷ []

-- A file that need not be there: no bytes if it cannot be read.
abbrev pub or_empty : Io Text → Io Text
or_empty m d = let (read, d') = m d in (ok (elim read [ ok content ↦ content | err _ ↦ [] ]), d')

module _ (os : Os) where
  -- One round of the loop of WriteAtomic: whether the file was replaced. An empty one is skipped.
  unfoldable pub write_part : Text → Part → Io Bool
  write_part dir part =
      if same part.data_ []
      then pure false
      else write_atomic os (join (dir ∷ part.name ∷ [])) part.data_ part.perm

  -- The loop: the first error ends it.
  unfoldable pub write_parts : Text → List Part → Bool → Io Bool
  write_parts dir [] changed = pure changed
  write_parts dir (part ∷ parts) changed = do
    c ← write_part dir part
    write_parts dir parts (changed || c)

  -- b.WriteAtomic. What it reports beside an error is not read.
  unfoldable pub write_bundle : Bundle → Text → Io Bool
  write_bundle b dir =
      or_wrap (text "mkdir " ++ dir) (mkdir_all os) >> write_parts dir (parts_of b) false

  -- Rollback
  unfoldable pub rollback_bundle : Text → Io (Unit {0})
  rollback_bundle dir = restore_dir os dir

  -- ReadLineage. The certificate is read twice.
  unfoldable pub read_lineage : X509 → (Text → Text) → Text → Text → Io Bundle
  read_lineage x sha256_hex lineage dir = do
    leaf ← load x os (join (dir ∷ cert_file ∷ []))
    cert ←
        or_wrap (text "read " ++ join (dir ∷ cert_file ∷ []))
          (read_file os (join (dir ∷ cert_file ∷ [])))
    key ← load_key x os (join (dir ∷ key_file ∷ []))
    chain ← or_empty (read_file os (join (dir ∷ chain_file ∷ [])))
    full ← or_empty (read_file os (join (dir ∷ fullchain_file ∷ [])))
    pure (record {
      lineage = lineage;
      domain = primary_domain (some leaf) lineage;
      version = record {
        not_before = leaf.not_before;
        not_after = leaf.not_after;
        serial = leaf.serial;
        sha256 = sha256_hex cert;
      };
      cert_pem = cert;
      key_pem = key;
      chain_pem = chain;
      full_pem = full;
    })
