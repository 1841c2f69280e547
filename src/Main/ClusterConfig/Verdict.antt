-- ===== src/Main/ClusterConfig/Verdict.antt =====
-- Which configurations `buildClusterConfig` of cmd/lbsync/main.go accepts.
use lbsync.Prelude.{
  ◌≡◌, ◌≢◌, ◌⊎◌, inl, inr, refl, sym, ap, ◌∙◌, ℤ, pos, ltb_ℤ, Text, same, same_iff, Bool-cases,
  true, false, not, ◌&&◌, List, [], length, Result, ok, err, err-ne-ok, ok-injective, arith,
}
use lbsync.Main.ClusterConfig.{
  Config, ClusterConfig, is_key_size, sized_key, replicas, config_with, gossip_key_of,
  build_cluster_config,
}

-- A password is set, or the operator waived it.
abbrev pub Secured : Config → Type 0
Secured cfg = (cfg.insecure ≡ true) ⊎ (cfg.password ≢ [])

module _ (decode_string : Text → Result Text) where
  -- No gossip key is set, or it decodes to 16, 24 or 32 bytes.
  abbrev pub KeyIs : Text → Text → Type 0
  KeyIs encoded key =
      ((encoded ≡ []) × (key ≡ []))
      ⊎ ((encoded ≢ [])
          × (decode_string encoded ≡ ok key)
          × ((length key ≡ 16) ⊎ ((length key ≡ 24) ⊎ (length key ≡ 32))))

  -- What the cluster is started with.
  abbrev pub Configures : Config → List Text → ClusterConfig → Type 0
  Configures cfg peers c =
      KeyIs cfg.gossip_key c.gossip_key
      × (c.password ≡ cfg.password)
      × (c.peers ≡ peers)
      × (ltb_ℤ (pos 0) c.replica_count ≡ true)
      × ((c.replica_count ≡ cfg.replica_count) ⊎ (ltb_ℤ (pos 0) cfg.replica_count ≡ false))

  unfoldable pub Verdict : Config → List Text → Result ClusterConfig → Type 0
  Verdict cfg peers (ok c) = Secured cfg × Configures cfg peers c
  Verdict cfg peers (err e) = ¬ (Secured cfg × ((key : Text) × KeyIs cfg.gossip_key key))

  -- The key, or why there is none.
  unfoldable KeyVerdict : Text → Result Text → Type 0
  KeyVerdict encoded (ok key) = KeyIs encoded key
  KeyVerdict encoded (err e) = ¬ ((key : Text) × KeyIs encoded key)

  sized_key-KeyVerdict :
      (encoded : Text) (r : Result Text)
      → encoded ≢ []
      → decode_string encoded ≡ r
      → KeyVerdict encoded (sized_key r)
  unfolding KeyVerdict sized_key
  sized_key-KeyVerdict encoded (err e) set h =
      λ k. elim k.1 [ inl empty ↦ set empty.0 | inr one ↦ err-ne-ok (sym h ∙ one.1) ]
  sized_key-KeyVerdict encoded (ok d) set h = elim (Bool-cases (is_key_size (length d))) [
    | inl m ↦ rw (m, KeyVerdict) (inr (set, h, ground arith))
    | inr m ↦
        rw (m, KeyVerdict)
          (λ k. elim k.1 [
            | inl empty ↦ set empty.0
            | inr one ↦ wrong k.0 (ok-injective (sym h ∙ one.1)) one.2 m
          ])
  ]
    where
      wrong :
          (key : Text)
          → d ≡ key
          → (length key ≡ 16) ⊎ ((length key ≡ 24) ⊎ (length key ≡ 32))
          → is_key_size (length d) ≡ false
          → ⊥
      wrong key same_key size m = ground (arith, ap length same_key)

  gossip_key_of-KeyVerdict :
      (encoded : Text) → KeyVerdict encoded (gossip_key_of decode_string encoded)
  unfolding gossip_key_of
  gossip_key_of-KeyVerdict encoded = elim (Bool-cases (same encoded [])) [
    | inl e ↦ rw e (unfold KeyVerdict in inl ((same_iff encoded []).0 e, refl))
    | inr e ↦
        rw e (sized_key-KeyVerdict encoded _ (λ empty. cc ((same_iff encoded []).1 empty, e)) refl)
  ]

  replicas_pos : (n : ℤ) (peers : List Text) → ltb_ℤ (pos 0) (replicas n peers) ≡ true
  replicas_pos n peers = ground arith

  replicas_chosen : (n : ℤ) (peers : List Text) → (replicas n peers ≡ n) ⊎ (ltb_ℤ (pos 0) n ≡ false)
  replicas_chosen n peers = elim (Bool-cases (ltb_ℤ (pos 0) n)) [
    | inl set ↦ inl (rw set)
    | inr unset ↦ inr unset
  ]

  config_with-Verdict :
      (cfg : Config) (peers : List Text) (r : Result Text)
      → Secured cfg
      → KeyVerdict cfg.gossip_key r
      → Verdict cfg peers (config_with cfg peers r)
  unfolding Verdict config_with KeyVerdict
  config_with-Verdict cfg peers (err e) secured k = λ both. k both.1
  config_with-Verdict cfg peers (ok key) secured k = (
    secured,
    (k, refl, refl, replicas_pos cfg.replica_count peers, replicas_chosen cfg.replica_count peers),
  )

  -- A configuration is accepted exactly if a password is set or waived and the gossip key is absent
  -- or decodes to 16, 24 or 32 bytes. The cluster then gets that key, the password and the peers,
  -- and a positive number of copies, which is the configured one if that is positive.
  pub build_cluster_config-Verdict :
      (cfg : Config) (peers : List Text)
      → Verdict cfg peers (build_cluster_config decode_string cfg peers)
  unfolding build_cluster_config
  build_cluster_config-Verdict cfg peers =
      elim (Bool-cases (not cfg.insecure && same cfg.password [])) [
        | inl e ↦ rw e (unfold Verdict in λ both. refused both.0 e)
        | inr e ↦ rw e (
            config_with-Verdict cfg peers _ (secured_by e)
              (gossip_key_of-KeyVerdict cfg.gossip_key))
      ]
    where
      refused : Secured cfg → (not cfg.insecure && same cfg.password []) ≡ true → ⊥
      refused (inl waived) e = cc (rw waived at e)
      refused (inr set) e = set ((same_iff cfg.password []).0 (ground arith))

      secured_by : (not cfg.insecure && same cfg.password []) ≡ false → Secured cfg
      secured_by e = elim (Bool-cases cfg.insecure) [
        | inl i ↦ inl i
        | inr i ↦ inr (λ empty. cc ((same_iff cfg.password []).1 empty, rw i at e))
      ]
