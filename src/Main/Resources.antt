-- ===== src/Main/Resources.antt =====
-- `parseBlobResources` of cmd/lbsync/main.go.
pub mod Print
use lbsync.Prelude.{
  Text, text, same, Option, none, some, List, [], ◌∷◌, ◌++◌, Result, ok, err, message,
  if◌then◌else◌,
}
use lbsync.Blob.{BlobResource}
use lbsync.Main.Strings.{cut, split, trim_space}
use lbsync.Main.ParseList.{parse_list}

abbrev pub strategy_of : List Text → Text
strategy_of [] = text "mtime"
strategy_of (field ∷ more) = if same field [] then text "mtime" else field

-- The fields of `src:dest[:strategy]`, behind the name. No commands are set.
unfoldable pub resource_of : Text → Text → List Text → Result BlobResource
resource_of item name (src ∷ dest ∷ more) = ok (record {
  name = trim_space name;
  source = src;
  dest = dest;
  strategy = strategy_of more;
  verify = [];
  reload = [];
})
resource_of item name _ =
    err (message (text "blob resource " ++ (item ++ text ": expected src:dest[:strategy]")))

-- The item, with what strings.Cut found in it.
unfoldable pub item_of_cut : Text → Option (Text × Text) → Result BlobResource
item_of_cut item none =
    err (message (text "blob resource " ++ (item ++ text ": expected name=src:dest[:strategy]")))
item_of_cut item (some (name, spec)) = resource_of item name (split b':' spec)

unfoldable pub parse_item : Text → Result BlobResource
parse_item item = item_of_cut item (cut b'=' item)

unfoldable pub onto_resources :
    Result BlobResource → Result (List BlobResource) → Result (List BlobResource)
onto_resources (err e) rest = err e
onto_resources (ok r) (err e) = err e
onto_resources (ok r) (ok rs) = ok (r ∷ rs)

-- The loop over the items: the first error ends it.
unfoldable pub parse_items : List Text → Result (List BlobResource)
parse_items [] = ok []
parse_items (item ∷ items) = onto_resources (parse_item item) (parse_items items)

-- parseBlobResources
unfoldable pub parse_blob_resources : Text → Result (List BlobResource)
parse_blob_resources s = parse_items (parse_list s)
