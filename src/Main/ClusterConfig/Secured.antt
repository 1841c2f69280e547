-- ===== src/Main/ClusterConfig/Secured.antt =====
-- What the checks of `buildClusterConfig` (cmd/lbsync/main.go) mean for the member that `NewCluster`
-- (internal/cluster/cluster.go) starts.
use mathlib.Core.Path.{subst}
use lbsync.Prelude.{
  ◌≡◌, ◌≢◌, ◌⊎◌, ◌∙◌, inl, inr, refl, sym, ap, pos, ltb_ℤ, Text, same, same_iff, Bool-cases, true,
  false, some, List, [], length, Result, ok, arith,
}
use lbsync.Main.ClusterConfig.{Config, ClusterConfig, build_cluster_config}
use lbsync.Main.ClusterConfig.Verdict.{
  Secured, KeyIs, Configures, Verdict, build_cluster_config-Verdict,
}
use lbsync.Cluster.Start.{OlricConfig, olric_config}

module _ (decode_string : Text → Result Text) (fresh_config : Text → OlricConfig) where
  not_empty : (t : Text) → t ≢ [] → same t [] ≡ false
  not_empty t h = elim (Bool-cases (same t [])) [
    | inl e ↦ absurd (h ((same_iff t []).0 e))
    | inr e ↦ e
  ]

  set_fields :
      (c : ClusterConfig)
      → ltb_ℤ (pos 0) c.replica_count ≡ true
      → (c.password ≢ [] → (olric_config fresh_config c).authentication ≡ some c.password)
        × (c.gossip_key ≢ [] → (olric_config fresh_config c).secret_key ≡ some c.gossip_key)
        × ((olric_config fresh_config c).replica_count ≡ c.replica_count)
        × ((olric_config fresh_config c).peers ≡ c.peers)
  unfolding olric_config
  set_fields c h =
      rw h ((λ p. rw (not_empty c.password p)), (λ p. rw (not_empty c.gossip_key p)), refl, refl)

  sized_key-ne :
      (key : Text) → (length key ≡ 16) ⊎ ((length key ≡ 24) ⊎ (length key ≡ 32)) → key ≢ []
  sized_key-ne key h e = ground (arith, ap length e)

  -- The member is given a key of 16, 24 or 32 bytes if one is configured.
  abbrev pub Encrypts : Text → OlricConfig → Type 0
  Encrypts encoded c =
      (encoded ≡ [])
      ⊎ ((key : Text) × (decode_string encoded ≡ ok key)
          × (c.secret_key ≡ some key)
          × ((length key ≡ 16) ⊎ ((length key ≡ 24) ⊎ (length key ≡ 32))))

  pub secured_start :
      (cfg : Config) (peers : List Text) (c : ClusterConfig)
      → build_cluster_config decode_string cfg peers ≡ ok c
      → cfg.insecure ≡ false
      → (cfg.password ≢ [])
        × ((olric_config fresh_config c).authentication ≡ some cfg.password)
        × Encrypts cfg.gossip_key (olric_config fresh_config c)
        × ((olric_config fresh_config c).replica_count ≡ c.replica_count)
        × ((olric_config fresh_config c).peers ≡ peers)
  secured_start cfg peers c built safe = of_verdict (
      unfold Verdict in
      subst (λ (r : Result ClusterConfig). Verdict decode_string cfg peers r) built
        (build_cluster_config-Verdict decode_string cfg peers))
    where
      password_set : Secured cfg → cfg.password ≢ []
      password_set (inl waived) = absurd (cc (waived, safe))
      password_set (inr set) = set

      encrypts :
          KeyIs decode_string cfg.gossip_key c.gossip_key
          → (c.gossip_key ≢ [] → (olric_config fresh_config c).secret_key ≡ some c.gossip_key)
          → Encrypts cfg.gossip_key (olric_config fresh_config c)
      encrypts (inl (absent, none_)) given = inl absent
      encrypts (inr (set, dec, size)) given =
          inr (c.gossip_key, dec, given (sized_key-ne c.gossip_key size), size)

      of_verdict :
          Secured cfg × Configures decode_string cfg peers c
          → (cfg.password ≢ [])
            × ((olric_config fresh_config c).authentication ≡ some cfg.password)
            × Encrypts cfg.gossip_key (olric_config fresh_config c)
            × ((olric_config fresh_config c).replica_count ≡ c.replica_count)
            × ((olric_config fresh_config c).peers ≡ peers)
      of_verdict (secured, (key, password, same_peers, many, chosen)) =
          let set = password_set secured in
          let (auth, secret, copies, at_peers) = set_fields c many in
          (
            set,
            auth (λ e. set (sym password ∙ e)) ∙ ap some password,
            encrypts key secret,
            copies,
            at_peers ∙ same_peers,
          )
