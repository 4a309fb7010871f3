-- ===== src/Certificate/KeyRotation.antt =====
-- The versions of the signing key that are used and published after a rotation, whatever was cached:
-- services/certificate-service.ts and certificate-signer/sign.ts.
use chameleon_vault.Prelude.{
  ℕ, String, ◌≡◌, refl, none, List, [], ◌∷◌, map, find, ok, arith, Option-cases, inl, inr, All,
}
use chameleon_vault.Certificate.SigningKeys.{
  Jwk, SigningKms, SigningKeys, published, jwk_for, jwks_for, get_jwks, get_enabled_versions,
  Rotated, rotate_signing_key, get_current_signing_key_version, signer_key_version,
}
use chameleon_vault.Certificate.Published.{
  Call, CallConstant, IsTrue, run, run-IsTrue, started, enabled_keeps, rotate_keeps, jwk_for-IsTrue,
  Constant,
}

-- Cloud KMS gives the public key of this version.
abbrev pub Answers : (String → Jwk) → SigningKms → String → Type 0
Answers jwk kms version = published kms version ≡ ok (jwk version)

module _ (jwk : String → Jwk) (kms : SigningKms) (constant : Constant jwk kms) where
  jwk_for_lem :
      (version : String) (s : SigningKeys)
      → Answers jwk kms version
      → IsTrue jwk s.jwk_cache
      → (jwk_for kms version s).0 ≡ ok (jwk version)
  unfolding jwk_for
  jwk_for_lem version s answers h = elim (Option-cases (find version s.jwk_cache)) [
    | inl missing ↦ rw (jwk_for, missing, answers) refl
    | inr (j, found) ↦ rw (jwk_for, found, h version j found) refl
  ]

  jwks_for_lem :
      (versions : List String) (s : SigningKeys)
      → All (Answers jwk kms) versions
      → IsTrue jwk s.jwk_cache
      → (jwks_for kms versions s).0 ≡ ok (map jwk versions)
  unfolding jwks_for
  jwks_for_lem [] s answers h = refl
  jwks_for_lem (version ∷ versions) s (one, more) h =
      rw
        (
          jwk_for_lem version s one h,
          jwks_for_lem versions (jwk_for kms version s).1 more
              (jwk_for-IsTrue jwk kms constant version s h),
        )
        refl

  versions_lem :
      (now : ℕ) (versions : List String) (s : SigningKeys)
      → s.enabled_versions_cache ≡ none
      → kms.list_enabled_versions ≡ ok versions
      → (get_enabled_versions kms now s).0 ≡ ok versions
  unfolding get_enabled_versions
  versions_lem now versions s empty listed = rw (get_enabled_versions, empty, listed) refl

  get_jwks_lem :
      (now : ℕ) (versions : List String) (s : SigningKeys)
      → All (Answers jwk kms) versions
      → IsTrue jwk s.jwk_cache
      → s.enabled_versions_cache ≡ none
      → kms.list_enabled_versions ≡ ok versions
      → (get_jwks kms now s).0 ≡ ok (map jwk versions)
  unfolding get_jwks
  get_jwks_lem now versions s answers h empty listed =
      rw (get_jwks, versions_lem now versions s empty listed)
        (jwks_for_lem versions (get_enabled_versions kms now s).1 answers
          (rw (enabled_keeps jwk kms now s) h))

  current_lem :
      (now : ℕ) (latest : String) (s : SigningKeys)
      → s.current_version_cache ≡ none
      → kms.get_newest_enabled_version ≡ ok latest
      → (get_current_signing_key_version kms now s).0 ≡ ok latest
  unfolding get_current_signing_key_version
  current_lem now latest s empty found = rw (get_current_signing_key_version, empty, found) refl

  sign_lem :
      (now : ℕ) (latest : String) (s : SigningKeys)
      → s.signer_version_cache ≡ none
      → kms.get_newest_enabled_version ≡ ok latest
      → (signer_key_version kms now s).0 ≡ ok latest
  unfolding signer_key_version
  sign_lem now latest s empty found = rw (signer_key_version, empty, found) refl

rotated_empty :
    (kms : SigningKms) (now : ℕ) (s : SigningKeys) (r : Rotated)
    → (rotate_signing_key kms now s).0 ≡ ok r
    → ((rotate_signing_key kms now s).1.current_version_cache ≡ none)
      × ((rotate_signing_key kms now s).1.enabled_versions_cache ≡ none)
      × ((rotate_signing_key kms now s).1.signer_version_cache ≡ none)
unfolding rotate_signing_key get_current_signing_key_version
rotated_empty kms now s r h = ground arith

-- What the service and the signer take as the current version, and what is published.
abbrev pub Served : (String → Jwk) → SigningKms → ℕ → String → List String → SigningKeys → Type 0
Served jwk kms now latest versions s =
    ((get_current_signing_key_version kms now s).0 ≡ ok latest)
    × ((signer_key_version kms now s).0 ≡ ok latest)
    × ((get_jwks kms now s).0 ≡ ok (map jwk versions))

-- After a rotation of the signing key that succeeds, whatever calls came before it and whatever they
-- cached, if Cloud KMS never gives a version another key, then names the enabled versions and the newest of
-- them, and gives the public key of each enabled one: the service and the signer each take the newest
-- enabled version as the current one, and the JWKS holds the keys of exactly the enabled versions, in order.
pub rotation_is_Served :
    (jwk : String → Jwk) (calls : List Call) (before kms : SigningKms) (at now : ℕ) (r : Rotated)
    (latest : String) (versions : List String)
    → All (CallConstant jwk) calls
    → (rotate_signing_key before at (run calls started)).0 ≡ ok r
    → Constant jwk kms
    → All (Answers jwk kms) versions
    → kms.get_newest_enabled_version ≡ ok latest
    → kms.list_enabled_versions ≡ ok versions
    → Served jwk kms now latest versions (rotate_signing_key before at (run calls started)).1
unfolding find
rotation_is_Served jwk calls before kms at now r latest versions constant done same answers newest
      listed =
    let s = (rotate_signing_key before at (run calls started)).1 in
    let (no_current, no_versions, no_signer) = rotated_empty before at (run calls started) r done in
    let cached : IsTrue jwk (run calls started).jwk_cache =
      run-IsTrue jwk calls started constant (λ v j found. ground arith) in
    let kept : IsTrue jwk s.jwk_cache =
      rw (rotate_keeps jwk before at (run calls started)) cached in
    (
      current_lem jwk kms same now latest s no_current newest,
      sign_lem jwk kms same now latest s no_signer newest,
      get_jwks_lem jwk kms same now versions s answers kept no_versions listed,
    )
