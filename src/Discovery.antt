-- ===== src/Discovery.antt =====
-- internal/discovery/certbot.go and internal/discovery/discovery.go: the certificates of certbot.
--
-- What the directories and the symbolic links are is a parameter (`Tree`): it may depend on the files.
pub mod Merge
use lbsync.Prelude.{
  Text, text, same, less, contains, Bool, not, ◌||◌, List, [], ◌∷◌, ◌++◌, Option, none, some,
  Result, ok, err, Error, message, wrapped, is_some, ◌>>=◌, if◌then◌else◌,
}
use lbsync.Prelude.Sorting.{sort_by}
use lbsync.Paths.{join}
use lbsync.Disk.{Disk, is_not_exist}

-- Cert
pub record Cert : Type 0 where
  pub cert_path : Text
  pub fallback_id : Text

-- Entry
pub record Entry : Type 0 where
  pub cert : Cert
  pub error : Option Error

-- os.DirEntry
pub record DirEntry : Type 0 where
  pub name : Text
  pub dir : Bool

-- os.ReadDir, info.IsDir() of os.Stat, filepath.EvalSymlinks and filepath.Abs
pub record Tree : Type 0 where
  pub read_dir : Text → Disk → Result (List DirEntry)
  pub stat_dir : Text → Disk → Result Bool
  pub eval_symlinks : Text → Disk → Result Text
  pub abs : Text → Result Text

-- DefaultRoot
abbrev pub default_root : Text
default_root = text "/etc/letsencrypt"

abbrev pub usable : Text → Text → Entry
usable name path = record { cert = record { cert_path = path; fallback_id = name }; error = none }

abbrev pub unusable : Text → Error → Entry
unusable name e = record { cert = record { cert_path = []; fallback_id = name }; error = some e }

-- `seen` in mergeEntries: an entry without a usable path is always kept.
unfoldable pub merge_from : List Text → List Entry → List Entry
merge_from seen [] = []
merge_from seen (e ∷ es) =
    let skipped = merge_from seen es in
    let kept = merge_from (e.cert.cert_path ∷ seen) es in
    if is_some e.error || same e.cert.cert_path []
    then e ∷ skipped
    else if contains seen e.cert.cert_path
    then skipped
    else e ∷ kept

-- The comparison of mergeEntries.
abbrev pub entry_before : Entry → Entry → Bool
entry_before a b =
    if not (same a.cert.fallback_id b.cert.fallback_id)
    then less a.cert.fallback_id b.cert.fallback_id
    else less a.cert.cert_path b.cert.cert_path

-- mergeEntries
unfoldable pub merge_entries : List Entry → List Entry
merge_entries es = sort_by entry_before (merge_from [] es)

-- The end of ScanAll: entries with an error are skipped.
unfoldable pub certs_in : List Entry → List Cert
certs_in [] = []
certs_in (e ∷ es) = let rest = certs_in es in if is_some e.error then rest else e.cert ∷ rest

module _ (tree : Tree) (d : Disk) where
  -- resolveCertPath
  unfoldable pub resolve_cert_path : Text → Result Text
  resolve_cert_path path = tree.eval_symlinks path d >>= tree.abs

  -- The end of one round, for a directory.
  unfoldable pub entry_in : Text → Text → Entry
  entry_in live_dir name =
      elim (resolve_cert_path (join (live_dir ∷ name ∷ text "cert.pem" ∷ []))) [
        | err e ↦ unusable name (wrapped (text "resolve cert.pem") e)
        | ok path ↦ usable name path
      ]

  -- One round of the loop of scanCertbotVerbose, for a name that is not skipped.
  unfoldable pub entry_of : Text → DirEntry → Entry
  entry_of live_dir e =
      if e.dir
      then entry_in live_dir e.name
      else elim (tree.stat_dir (join (live_dir ∷ e.name ∷ [])) d) [
        | err x ↦ unusable e.name (wrapped (text "stat") x)
        | ok is_dir ↦
            if is_dir
            then entry_in live_dir e.name
            else unusable e.name (message (text "not a directory"))
      ]

  unfoldable pub entries_of : Text → List DirEntry → List Entry
  entries_of live_dir [] = []
  entries_of live_dir (e ∷ es) =
      let rest = entries_of live_dir es in
      if same e.name [] || same e.name (text "README") then rest else entry_of live_dir e ∷ rest

  -- scanCertbotVerbose
  unfoldable pub scan_certbot_verbose : Text → Result (List Entry)
  scan_certbot_verbose root =
      let live_dir = join ((if same root [] then default_root else root) ∷ text "live" ∷ []) in
      elim (tree.read_dir live_dir d) [
        | err e ↦ if is_not_exist e then ok [] else err (wrapped (text "read " ++ live_dir) e)
        | ok es ↦ ok (entries_of live_dir es)
      ]

  -- ScanAllVerbose, over the root of certbot.
  unfoldable pub scan_all_verbose : Text → Result (List Entry)
  scan_all_verbose root =
      if same root []
      then ok (merge_entries [])
      else (do es ← scan_certbot_verbose root; ok (merge_entries es))

  -- ScanAll
  unfoldable pub scan_all : Text → Result (List Cert)
  scan_all root = do es ← scan_all_verbose root; ok (certs_in es)
