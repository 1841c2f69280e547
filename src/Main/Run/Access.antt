-- ===== src/Main/Run/Access.antt =====
-- Who can talk to the cluster that `run` of cmd/lbsync/main.go starts.
use mathlib.Core.Path.{subst}
use lbsync.Prelude.{
  ◌≡◌, ◌≢◌, ◌⊎◌, ◌∙◌, inl, inr, refl, sym, ap, pos, eqb_ℤ, Text, text, same, same_iff, same_ne,
  Bool-cases, true, false, not, some, [], Result, ok, err, ◌>>=◌, err-ne-ok, ok-injective,
}
use lbsync.Wan.Tls.{TlsConfig, or_wrap}
use lbsync.Wan.Tls.Verdict.{Verdict, build_tls_config-Verdict}
use lbsync.Wan.Start
use lbsync.Wan.Start.{Serving, or_default, tls_configs, listening, new_backend}
use lbsync.Cluster.{Cluster}
use lbsync.Cluster.Start.{
  Wait, started, start_failed, cancelled, olric_config, when_started, new_cluster,
}
use lbsync.Main.ParseList.{parse_list}
use lbsync.Main.ClusterConfig.{ClusterConfig, build_cluster_config}
use lbsync.Main.ClusterConfig.Secured.{secured_start}
use lbsync.Main.Run.{Config, Chosen, lan, wan, World, named, start_lan, start_wan, start_cluster}

-- What went before a result.
then-ok :
    {A B : Type 0} (r : Result A) (f : A → Result B) (b : B)
    → (r >>= f) ≡ ok b
    → (a : A) × (r ≡ ok a) × (f a ≡ ok b)
then-ok (ok a) f b h = (a, refl, h)
then-ok (err e) f b h = absurd (err-ne-ok h)

or_wrap-ok : {A : Type 0} (what : Text) (r : Result A) (a : A) → or_wrap what r ≡ ok a → r ≡ ok a
or_wrap-ok what (ok b) a h = h
or_wrap-ok what (err e) a h = absurd (err-ne-ok h)

then_same : {A B : Type 0} (r : Result A) (b s : B) → (r >>= λ u. ok b) ≡ ok s → b ≡ s
then_same (ok a) b s h = ok-injective h
then_same (err e) b s h = absurd (err-ne-ok h)

module _ {O K C P : Type 0} (w : World O K C P) where
  -- In LAN mode the member of Olric has the password that is configured, which is not empty, or the
  -- node runs with -insecure. In WAN mode the file of authorities alone decides: with it the server
  -- verifies its clients and the client the server, without it neither does.
  abbrev pub Access : Config → Chosen O C P → Type 0
  Access cfg (lan cl) =
      (eqb_ℤ cfg.wan_port (pos 0) ≡ true)
      × ((c : ClusterConfig) × (w.olric_new (olric_config w.fresh_config c) ≡ ok cl.db)
          × ((cfg.cluster.insecure ≡ true)
              ⊎ ((cfg.cluster.password ≢ [])
                  × ((olric_config w.fresh_config c).authentication ≡ some cfg.cluster.password))))
  Access cfg (wan s) =
      (eqb_ℤ cfg.wan_port (pos 0) ≡ false)
      × ((s.server.verify_clients ≡ not (same cfg.tls_ca []))
          × (s.client.skip_verify ≡ same cfg.tls_ca []))

  when_started-db :
      (db : O) (a : Wait) (cl : Cluster O)
      → when_started w.fresh_config w.olric_new w.wait db a ≡ ok cl
      → db ≡ cl.db
  unfolding when_started
  when_started-db db started cl h = ap (λ (c : Cluster O). c.db) (ok-injective h)
  when_started-db db (start_failed e) cl h = absurd (err-ne-ok h)
  when_started-db db (cancelled e) cl h = absurd (err-ne-ok h)

  new_cluster-db :
      (c : ClusterConfig) (cl : Cluster O)
      → new_cluster w.fresh_config w.olric_new w.wait c ≡ ok cl
      → w.olric_new (olric_config w.fresh_config c) ≡ ok cl.db
  new_cluster-db c cl h = by_new (w.olric_new (olric_config w.fresh_config c)) refl h
    where
      by_new :
          (r : Result O)
          → w.olric_new (olric_config w.fresh_config c) ≡ r
          → new_cluster w.fresh_config w.olric_new w.wait c ≡ ok cl
          → w.olric_new (olric_config w.fresh_config c) ≡ ok cl.db
      by_new (ok db) e h =
          e
          ∙ ap ok
              (when_started-db db (w.wait db) cl (unfold new_cluster in rw (e, new_cluster) at h))
      by_new (err x) e h = unfold new_cluster in absurd (err-ne-ok (rw (e, new_cluster) at h))

  start_lan-Access :
      (cfg : Config) (c : Chosen O C P)
      → eqb_ℤ cfg.wan_port (pos 0) ≡ true
      → start_lan w cfg ≡ ok c
      → Access cfg c
  unfolding start_lan
  start_lan-Access cfg c port h =
      let peers = parse_list cfg.peers in
      let (cc_, built, more) =
        then-ok (build_cluster_config w.decode_string cfg.cluster peers) _ c h in
      let (cl, started_, last) = then-ok _ _ c more in
      subst (Access cfg) {x = lan cl} (ok-injective last) (
        port,
        (
          cc_,
          new_cluster-db cc_ cl (or_wrap-ok _ _ cl started_),
          secured cc_ built (Bool-cases cfg.cluster.insecure),
        ),
      )
    where
      secured :
          (c : ClusterConfig)
          → build_cluster_config w.decode_string cfg.cluster (parse_list cfg.peers) ≡ ok c
          → (cfg.cluster.insecure ≡ true) ⊎ (cfg.cluster.insecure ≡ false)
          → (cfg.cluster.insecure ≡ true)
            ⊎ ((cfg.cluster.password ≢ [])
                × ((olric_config w.fresh_config c).authentication ≡ some cfg.cluster.password))
      secured c built (inl waived) = inl waived
      secured c built (inr safe) =
          let (set, auth, key, copies, at_peers) =
            secured_start w.decode_string w.fresh_config cfg.cluster (parse_list cfg.peers) c built
              safe in
          inr (set, auth)

  verified :
      (cert key ca host : Text) (pair : TlsConfig C P × TlsConfig C P)
      → Verdict w.crypto cert key ca host (ok pair)
      → (pair.0.verify_clients ≡ not (same ca [])) × (pair.1.skip_verify ≡ same ca [])
  unfolding Verdict
  verified cert key ca host pair (c, own, inl (empty, (shown, asks, shows_none, skips))) =
      rw ((same_iff ca []).1 empty) (asks, skips)
  verified cert key ca host pair (c, own, inr (set, cert_set, pool, trusts, both)) =
      let (shown, asks, clients, shows, roots, skips) = both in rw (same_ne ca [] set) (asks, skips)

  -- The configurations of the server and of the client of a backend.
  abbrev Sides : Serving C P → TlsConfig C P × TlsConfig C P → Type 0
  Sides s pair = (s.server ≡ pair.0) × (s.client ≡ pair.1)

  listening-Sides :
      (addr : Text) (cfg : Start.Config C P) (pair : TlsConfig C P × TlsConfig C P)
      (s : Serving C P)
      → listening w.crypto w.listen addr cfg pair ≡ ok s
      → Sides s pair
  unfolding listening
  listening-Sides addr cfg (server, client) s h =
      let made = then_same _ _ s h in
      (sym (ap (λ (x : Serving C P). x.server) made), sym (ap (λ (x : Serving C P). x.client) made))

  start_wan-Access :
      (cfg : Config) (c : Chosen O C P)
      → eqb_ℤ cfg.wan_port (pos 0) ≡ false
      → start_wan w cfg ≡ ok c
      → Access cfg c
  unfolding start_wan new_backend tls_configs
  start_wan-Access cfg c port h =
      let (s, made, last) = then-ok _ _ c h in
      let (pair, built, more) = then-ok _ _ s (or_wrap-ok _ _ s made) in
      subst (Access cfg) {x = wan s} (ok-injective last) (
        port,
        of_sides s pair (listening-Sides _ _ pair s more) (
            verified cfg.tls_cert cfg.tls_key cfg.tls_ca host pair (
              subst (Verdict w.crypto cfg.tls_cert cfg.tls_key cfg.tls_ca host)
                (or_wrap-ok _ _ pair built)
                (build_tls_config-Verdict w.crypto cfg.tls_cert cfg.tls_key cfg.tls_ca host))),
      )
    where
      host : Text
      host = or_default (text "localhost") cfg.hostname

      of_sides :
          (s : Serving C P) (pair : TlsConfig C P × TlsConfig C P)
          → Sides s pair
          → (pair.0.verify_clients ≡ not (same cfg.tls_ca []))
            × (pair.1.skip_verify ≡ same cfg.tls_ca [])
          → (s.server.verify_clients ≡ not (same cfg.tls_ca []))
            × (s.client.skip_verify ≡ same cfg.tls_ca [])
      of_sides s pair (server, client) (v, k) = (
        ap (λ (t : TlsConfig C P). t.verify_clients) server ∙ v,
        ap (λ (t : TlsConfig C P). t.skip_verify) client ∙ k,
      )

  -- A cluster that run starts: in LAN mode the member of Olric requires the configured password, which
  -- is not empty, unless the node runs with -insecure. In WAN mode neither is looked at: the server
  -- verifies its clients, and the client the server, exactly if a file of authorities is configured.
  pub start_cluster-Access :
      (cfg : Config) (c : Chosen O C P) → start_cluster w cfg ≡ ok c → Access cfg c
  unfolding start_cluster
  start_cluster-Access cfg c h = elim (Bool-cases (eqb_ℤ cfg.wan_port (pos 0))) [
    | inl port ↦ start_lan-Access (named w cfg) c port (rw port at h)
    | inr port ↦ start_wan-Access (named w cfg) c port (rw port at h)
  ]
