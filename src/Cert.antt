-- ===== src/Cert.antt =====
-- internal/cert/cert.go: certificates and private keys in files.
--
-- Package encoding/pem and package crypto/x509 are a parameter (`X509`).
use lbsync.Prelude.{
  ℤ, Text, text, same, Bool, true, false, Option, none, some, List, [], ◌∷◌, ◌++◌, Result, ok, err,
  message, if◌then◌else◌,
}
use lbsync.Prelude.Steps.{◌>>=◌, lift, or_wrap}
use lbsync.Disk.{Disk, Os, read_file}
use lbsync.AtomicFile.{Io}

-- The fields of x509.Certificate that are read. The times are Unix seconds, and the serial number
-- is in hexadecimal.
pub record Leaf : Type 0 where
  pub dns_names : List Text
  pub common_name : Text
  pub not_before : ℤ
  pub not_after : ℤ
  pub serial : Text

-- pem.Block
pub record Block : Type 0 where
  pub type_ : Text
  pub bytes : Text

-- pem.Decode, and the parsers of crypto/x509: of those for keys, only whether they succeed.
pub record X509 : Type 0 where
  pub decode : Text → Option Block
  pub parse : Text → Result Leaf
  pub is_pkcs8 : Text → Bool
  pub is_pkcs1 : Text → Bool
  pub is_ec : Text → Bool

module _ (x : X509) where
  -- parseCertificate
  unfoldable pub parse_certificate : Text → Result Leaf
  parse_certificate raw = elim (x.decode raw) [
    | none ↦ x.parse raw
    | some block ↦
        if same block.type_ (text "CERTIFICATE")
        then x.parse block.bytes
        else err (message (text "expected CERTIFICATE PEM block, got " ++ block.type_))
  ]

  -- LooksLikeCertificate
  unfoldable pub looks_like_certificate : Text → Bool
  looks_like_certificate raw = elim (parse_certificate raw) [ ok _ ↦ true | err _ ↦ false ]

  -- LooksLikePrivateKey
  unfoldable pub looks_like_private_key : Text → Bool
  looks_like_private_key raw = elim (x.decode raw) [
    | none ↦ false
    | some block ↦
        if x.is_pkcs8 block.bytes
        then true
        else if x.is_pkcs1 block.bytes
        then true
        else x.is_ec block.bytes
  ]

  module _ (os : Os) where
    -- Load
    unfoldable pub load : Text → Io Leaf
    load path = do
      raw ← or_wrap (text "read " ++ path) (read_file os path)
      or_wrap (text "parse " ++ path) (lift (parse_certificate raw))

    unfoldable pub checked_key : Text → Text → Result Text
    checked_key path raw =
        if looks_like_private_key raw
        then ok raw
        else err (message (path ++ text ": not a parseable private key"))

    -- LoadKey
    unfoldable pub load_key : Text → Io Text
    load_key path = do
      raw ← or_wrap (text "read " ++ path) (read_file os path)
      lift (checked_key path raw)

    -- LooksLikeCertificateFile
    unfoldable pub looks_like_certificate_file : Text → Disk → Bool × Disk
    looks_like_certificate_file path d =
        let (read, d') = read_file os path d in
        (elim read [ err _ ↦ false | ok raw ↦ looks_like_certificate raw ], d')

-- The common name, unless it is empty.
abbrev pub name_or : Text → Text → Text
name_or fallback [] = fallback
name_or fallback (c ∷ name) = c ∷ name

-- PrimaryDomain
unfoldable pub primary_domain : Option Leaf → Text → Text
primary_domain none fallback = fallback
primary_domain (some c) fallback = elim c.dns_names [
  | [] ↦ name_or fallback c.common_name
  | name ∷ names ↦ name
]
