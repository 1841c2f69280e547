-- ===== src/Main/Resources/Print.antt =====
-- `parseBlobResources` of cmd/lbsync/main.go reads back printed resources.
use lbsync.Prelude.{
  ◌≡◌, ◌≢◌, ◌∙◌, refl, sym, ap, Text, same, same_iff, Bool-cases, inl, inr, some, List, [], ◌∷◌,
  ◌++◌, map, All, Result, ok, arith,
}
use lbsync.Blob.{BlobResource}
use lbsync.Main.Strings.{cut, split, trim_space}
use lbsync.Main.ParseList.Join.{IsItem, join, parse_list-join}
use lbsync.Main.Resources.{
  strategy_of, resource_of, item_of_cut, onto_resources, parse_item, parse_items,
  parse_blob_resources,
}

-- name=src:dest:strategy
unfoldable pub print_resource : BlobResource → Text
print_resource r = r.name ++ (b'=' ∷ (r.source ++ (b':' ∷ (r.dest ++ (b':' ∷ r.strategy)))))

-- A resource that can be written so: the name has no equals sign and no space at its ends, the paths
-- and the strategy have no colon, the strategy is not empty, and no commands are set.
pub record IsPrintable (r : BlobResource) : Type 0 where
  pub item : IsItem (print_resource r)
  pub name_trimmed : trim_space r.name ≡ r.name
  pub name_plain : All (λ c. c ≢ b'=') r.name
  pub source_plain : All (λ c. c ≢ b':') r.source
  pub dest_plain : All (λ c. c ≢ b':') r.dest
  pub strategy_plain : All (λ c. c ≢ b':') r.strategy
  pub strategy_set : r.strategy ≢ []
  pub no_verify : r.verify ≡ []
  pub no_reload : r.reload ≡ []

cut-append :
    (name rest : Text)
    → All (λ c. c ≢ b'=') name
    → cut b'=' (name ++ (b'=' ∷ rest)) ≡ some (name, rest)
unfolding cut
cut-append [] rest h = refl
cut-append (c ∷ name) rest h = ground (arith, cut-append name rest h.1)

split-colon :
    (a rest : Text) → All (λ c. c ≢ b':') a → split b':' (a ++ (b':' ∷ rest)) ≡ a ∷ split b':' rest
unfolding split
split-colon [] rest h = refl
split-colon (c ∷ a) rest h = rw (split-colon a rest h.1) (ground arith)

split-alone : (a : Text) → All (λ c. c ≢ b':') a → split b':' a ≡ a ∷ []
unfolding split
split-alone [] h = refl
split-alone (c ∷ a) h = rw (split-alone a h.1) (ground arith)

split-printed :
    (r : BlobResource)
    → IsPrintable r
    → split b':' (r.source ++ (b':' ∷ (r.dest ++ (b':' ∷ r.strategy))))
      ≡ r.source ∷ r.dest ∷ r.strategy ∷ []
split-printed r p =
    split-colon r.source _ p.source_plain
    ∙ ap (λ (x : List Text). r.source ∷ x)
        (split-colon r.dest r.strategy p.dest_plain
          ∙ ap (λ (x : List Text). r.dest ∷ x) (split-alone r.strategy p.strategy_plain))

strategy_kept : (r : BlobResource) → IsPrintable r → strategy_of (r.strategy ∷ []) ≡ r.strategy
strategy_kept r p = elim (Bool-cases (same r.strategy [])) [
  | inl e ↦ absurd (p.strategy_set ((same_iff r.strategy []).0 e))
  | inr e ↦ rw e
]

resource_of-printed :
    (item : Text) (r : BlobResource)
    → IsPrintable r
    → resource_of item r.name (r.source ∷ r.dest ∷ r.strategy ∷ []) ≡ ok r
unfolding resource_of
resource_of-printed item r p = ap ok (λ i. record {
  name = p.name_trimmed i;
  source = r.source;
  dest = r.dest;
  strategy = strategy_kept r p i;
  verify = sym p.no_verify i;
  reload = sym p.no_reload i;
})

parse_item-print_resource :
    (r : BlobResource) → IsPrintable r → parse_item (print_resource r) ≡ ok r
unfolding parse_item print_resource item_of_cut
parse_item-print_resource r p =
    ap (item_of_cut (print_resource r)) (cut-append r.name _ p.name_plain)
    ∙ ap (resource_of (print_resource r) r.name) (split-printed r p)
    ∙ resource_of-printed (print_resource r) r p

parse_items-map :
    (rs : List BlobResource) → All IsPrintable rs → parse_items (map print_resource rs) ≡ ok rs
unfolding parse_items onto_resources
parse_items-map [] h = refl
parse_items-map (r ∷ rs) (one, more) =
    ap (λ (x : Result BlobResource). onto_resources x (parse_items (map print_resource rs)))
      (parse_item-print_resource r one)
    ∙ ap (onto_resources (ok r)) (parse_items-map rs more)

items_of : (rs : List BlobResource) → All IsPrintable rs → All IsItem (map print_resource rs)
items_of [] h = tt
items_of (r ∷ rs) (one, more) = (one.item, items_of rs more)

-- Resources that can be written as `name=src:dest:strategy` are read back from the text that joins
-- them by commas.
pub parse_blob_resources-print :
    (rs : List BlobResource)
    → All IsPrintable rs
    → parse_blob_resources (join (map print_resource rs)) ≡ ok rs
unfolding parse_blob_resources
parse_blob_resources-print rs h =
    ap parse_items (parse_list-join (map print_resource rs) (items_of rs h)) ∙ parse_items-map rs h
