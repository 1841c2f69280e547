-- ===== src/Tests/Nodes.antt =====
-- The engine's theorems on two nodes with one blob each.
use lbsync.Prelude.{
  ◌≡◌, refl, pos, Text, text, same, contains, Distinct, is_some, ◌||◌, false, List, [], ◌∷◌, All,
  none,
}
use lbsync.Prelude.Dict.{lookup, insert}
use lbsync.Disk.{read_file}
use lbsync.Engine.{Record, pick_newer}
use lbsync.Engine.Gather.{gather_keys, locals_of, index_locals}
use lbsync.Engine.Gather.Union.{gather_keys-union}
use lbsync.Engine.Tick.{tick_provider}
use lbsync.Engine.Tick.Merge.{tick_provider-merged}
use lbsync.Engine.Tick.Converge.{Member, Among, fleet_round, fleet_round-converges}
use lbsync.Blob.{
  BlobState, Resource, blob_kind, make_resource, add_resources, start, read_source, read_sources,
  record_read, provider, make_record, local, apply,
}
use lbsync.Blob.Local.{blob_member, blob_member-IsOfKind}
use lbsync.Blob.Apply.{Applied, apply-Applied}
use lbsync.Tests.Fixtures.{view, table-IsStore, env, blobs, node_with, engine, begin, drawn, site}

abbrev nodes : List (Member BlobState)
nodes =
    blob_member env blobs (node_with (text "one"))
    ∷ blob_member env blobs (node_with (text "two"))
    ∷ []

fleet_round-converges_example :
    let held =
      view (fleet_round engine nodes (begin (node_with []))).cluster blob_kind (text "site") in
    Among engine view table-IsStore
      (λ r c. refl)
      (λ ks k. refl)
      blob_kind
      (text "site")
      nodes
      none
      held
    × All (λ m. pick_newer (lookup (locals_of m.provider m.node) (text "site")) held ≡ held) nodes
    × (pick_newer none held ≡ held)
fleet_round-converges_example =
    fleet_round-converges engine view table-IsStore (λ r c. refl) (λ ks k. refl) blob_kind
      (text "site") nodes (begin (node_with []))
      (
        blob_member-IsOfKind env blobs (node_with (text "one")),
        (blob_member-IsOfKind env blobs (node_with (text "two")), tt),
      )

tick_provider-merged_example :
    view
      (tick_provider engine (provider env blobs) (begin (node_with (text "one")))).cluster
      blob_kind
      (text "site")
    ≡ lookup (locals_of (provider env blobs) (node_with (text "one"))) (text "site")
unfolding lookup same locals_of provider index_locals pick_newer local read_sources start
    add_resources read_source record_read read_file make_resource insert make_record
tick_provider-merged_example =
    tick_provider-merged engine view table-IsStore (λ r c. refl) (provider env blobs)
      (begin (node_with (text "one"))) (λ ks k. refl)
      (blob_member-IsOfKind env blobs (node_with (text "one"))).1 blob_kind (text "site")

gather_keys-union_example :
    let found = (gather_keys engine (provider env blobs) (begin (node_with (text "one")))).0 in
    Distinct found.1
    × ((k : Text)
        → contains found.1 k ≡ (is_some (lookup found.0 k) || contains (text "site" ∷ []) k))
gather_keys-union_example =
    gather_keys-union engine (provider env blobs) (begin (node_with (text "one"))) (λ ks k. refl)

abbrev resource : Resource
resource = make_resource false site

abbrev one_record : Record
one_record = make_record env blobs resource (text "one") (pos 5)

apply-Applied_example :
    Applied env blobs one_record resource (node_with []) (apply env blobs one_record (node_with []))
unfolding start add_resources make_resource make_record lookup insert same
apply-Applied_example =
    apply-Applied env blobs one_record resource (node_with []) refl (drawn (text "/d"))
