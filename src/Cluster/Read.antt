-- ===== src/Cluster/Read.antt =====
-- What `Get` of internal/cluster/cluster.go does to the maps.
use lbsync.Prelude.{◌≡◌, ◌∙◌, Text, Option}
use lbsync.Prelude.Steps.{bind_elim}
use lbsync.Wan.{Codec}
use lbsync.Cluster.{Olric, Cluster, open_dmap, read_record, get}
use lbsync.Cluster.Laws.{IsOlric, view-open_dmap}

module _ (codec : Codec) {O : Type 0} (olric : Olric O) (view : O → Text → Text → Option Text)
    (L : IsOlric olric view) where
  pub view-get :
      (kind key : Text) (c : Cluster O) (k j : Text)
      → view (get codec olric kind key c).1.db k j ≡ view c.db k j
  unfolding get read_record
  view-get kind key c k j =
      let kept = view-open_dmap olric view L kind c k j in
      bind_elim (λ r. view r.1.db k j ≡ view c.db k j) (open_dmap olric kind)
        (λ _. read_record codec olric kind key) c
        (λ u h. L.view-get kind key (open_dmap olric kind c).1.db k j ∙ kept) (λ e h. kept)
