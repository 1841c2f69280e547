-- ===== src/Wan/Tls/Verdict.antt =====
-- What `buildTLSConfig` of internal/wan/tls.go decides.
use lbsync.Prelude.{
  ◌≡◌, ◌≢◌, ◌⊎◌, refl, inl, inr, Text, same, same_iff, Bool-cases, true, false, not, ◌&&◌, Option,
  none, some, [], ◌∷◌, Result, ok, err, Error, ◌>>=◌,
}
use lbsync.Paths.{clean}
use lbsync.Wan.Tls.{
  Crypto, TlsConfig, pool_in, own_certificate, authorities, verified_pair, configs_with,
  build_tls_config,
}

module _ {K C P : Type 0} (crypto : Crypto K C P) (cert_file key_file ca_file hostname : Text) where
  abbrev pub Pair : Type 0
  Pair = TlsConfig C P × TlsConfig C P

  -- The bytes of the file with the authorities make up a pool, or they do not.
  abbrev pub Trusts : P → Type 0
  Trusts pool =
      (pem : Text) × (crypto.read_file (clean ca_file) ≡ ok pem)
      × (crypto.append_certs pem ≡ some pool)

  abbrev pub TrustsNone : Type 0
  TrustsNone =
      ((e : Error) × (crypto.read_file (clean ca_file) ≡ err e))
      ⊎ ((pem : Text) × (crypto.read_file (clean ca_file) ≡ ok pem)
          × (crypto.append_certs pem ≡ none))

  -- The server shows its certificate, and asks for none; the client shows none, and verifies nothing.
  abbrev pub VerifiesNothing : C → Pair → Type 0
  VerifiesNothing cert (server, client) =
      (server.certificates ≡ cert ∷ [])
      × (server.verify_clients ≡ false)
      × (client.certificates ≡ [])
      × (client.skip_verify ≡ true)

  -- Both show the certificate; the server requires one of its clients and verifies it against the
  -- pool, and the client verifies that of the server against the pool.
  abbrev pub VerifiesBoth : C → P → Pair → Type 0
  VerifiesBoth cert pool (server, client) =
      (server.certificates ≡ cert ∷ [])
      × (server.verify_clients ≡ true)
      × (server.client_cas ≡ some pool)
      × (client.certificates ≡ cert ∷ [])
      × (client.root_cas ≡ some pool)
      × (client.skip_verify ≡ false)

  -- Without authorities nothing is verified; with authorities and a certificate of its own, both sides
  -- are; anything else is an error.
  unfoldable pub Verdict : Result Pair → Type 0
  Verdict (ok pair) =
      (cert : C) × (own_certificate crypto cert_file key_file hostname ≡ ok cert)
      × (((ca_file ≡ []) × VerifiesNothing cert pair)
          ⊎ ((ca_file ≢ [])
              × (cert_file ≢ [])
              × (pool : P) × Trusts pool
              × VerifiesBoth cert pool pair))
  Verdict (err e) =
      ((ca_file ≢ []) × (cert_file ≡ []))
      ⊎ (((x : Error) × (own_certificate crypto cert_file key_file hostname ≡ err x))
          ⊎ ((ca_file ≢ []) × TrustsNone))

  differs : (t : Text) → same t [] ≡ false → t ≢ []
  differs t h k = cc ((same_iff t []).1 k, h)

  -- What `authorities` finds.
  Found : Result P → Type 0
  Found (ok pool) = Trusts pool
  Found (err e) = TrustsNone

  authorities-Found : Found (authorities crypto ca_file)
  unfolding authorities Found
  authorities-Found = by_read (crypto.read_file (clean ca_file)) refl
    where
      by_pool :
          (pem : Text) (o : Option P)
          → crypto.read_file (clean ca_file) ≡ ok pem
          → crypto.append_certs pem ≡ o
          → Found (pool_in crypto ca_file o)
      by_pool pem none h k = unfold Found in inr (pem, h, k)
      by_pool pem (some pool) h k = unfold Found in (pem, h, k)

      by_read :
          (r : Result Text)
          → crypto.read_file (clean ca_file) ≡ r
          → Found (authorities crypto ca_file)
      by_read (err e) h = unfold authorities Found in rw h (inl (e, h))
      by_read (ok pem) h = unfold authorities in rw h (by_pool pem (crypto.append_certs pem) h refl)

  onto_pair :
      (cert : C) (r : Result P)
      → own_certificate crypto cert_file key_file hostname ≡ ok cert
      → ca_file ≢ []
      → cert_file ≢ []
      → Found r
      → Verdict (r >>= λ pool. ok (verified_pair crypto cert pool))
  unfolding Found Verdict
  onto_pair cert (ok pool) own ca set found =
      (cert, own, inr (ca, set, pool, found, (refl, refl, refl, refl, refl, refl)))
  onto_pair cert (err e) own ca set found = inr (inr (ca, found))

  configs_with-Verdict :
      (cert : C)
      → own_certificate crypto cert_file key_file hostname ≡ ok cert
      → (not (same ca_file []) && same cert_file []) ≡ false
      → Verdict (configs_with crypto ca_file cert)
  unfolding configs_with
  configs_with-Verdict cert own h = elim (Bool-cases (same ca_file [])) [
    | inl e ↦
        rw e
          (unfold Verdict in (cert, own, inl ((same_iff ca_file []).0 e, (refl, refl, refl, refl))))
    | inr e ↦ rw e (
        onto_pair cert (authorities crypto ca_file) own (differs ca_file e)
          (differs cert_file (rw e at h)) authorities-Found)
  ]

  -- buildTLSConfig on every branch. With a file of authorities and a certificate of its own, server
  -- and client both show that certificate, the server requires a certificate of its clients and has
  -- the pool of that file to verify it, and the client has the same pool for the server and does not
  -- skip the verification. Without authorities the server shows its certificate and requires none,
  -- and the client shows none and skips the verification. If it fails, authorities came without a
  -- certificate, or the certificate or the authorities could not be had.
  pub build_tls_config-Verdict :
      Verdict (build_tls_config crypto cert_file key_file ca_file hostname)
  unfolding build_tls_config
  build_tls_config-Verdict = elim (Bool-cases (not (same ca_file []) && same cert_file [])) [
    | inl h ↦ rw h (unfold Verdict in inl (refused h))
    | inr h ↦ rw h (by_certificate (own_certificate crypto cert_file key_file hostname) refl h)
  ]
    where
      refused :
          (not (same ca_file []) && same cert_file []) ≡ true → (ca_file ≢ []) × (cert_file ≡ [])
      refused h = elim (Bool-cases (same ca_file [])) [
        | inl e ↦ absurd (cc (rw e at h))
        | inr e ↦ (differs ca_file e, (same_iff cert_file []).0 (rw e at h))
      ]

      by_certificate :
          (r : Result C)
          → own_certificate crypto cert_file key_file hostname ≡ r
          → (not (same ca_file []) && same cert_file []) ≡ false
          → Verdict (r >>= configs_with crypto ca_file)
      by_certificate (err e) own h = unfold Verdict in inr (inl (e, own))
      by_certificate (ok cert) own h = configs_with-Verdict cert own h
