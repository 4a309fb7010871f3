-- ===== src/Certificate/Published.antt =====
-- The cache of published keys, services/certificate-service.ts, over any calls.
use chameleon_vault.Prelude.{
  ℕ, String, ◌≡◌, none, some, List, [], ◌∷◌, Docs, find, put, find-put, ok, arith, eq_iff,
  Option-cases, Result-cases, inl, inr, All,
}
use chameleon_vault.Certificate.SigningKeys.{
  Jwk, SigningKms, SigningKeys, published, jwk_for, jwks_for, get_jwks, get_enabled_versions,
  get_public_key, rotate_signing_key, get_current_signing_key_version, signer_key_version,
}

pub data Call : Type 0 where
  current : SigningKms → ℕ → Call
  sign : SigningKms → ℕ → Call
  public_key : SigningKms → ℕ → Call
  jwks : SigningKms → ℕ → Call
  rotate : SigningKms → ℕ → Call

abbrev pub apply : Call → SigningKeys → SigningKeys
apply (current kms now) s = (get_current_signing_key_version kms now s).1
apply (sign kms now) s = (signer_key_version kms now s).1
apply (public_key kms now) s = (get_public_key kms now s).1
apply (jwks kms now) s = (get_jwks kms now s).1
apply (rotate kms now) s = (rotate_signing_key kms now s).1

unfoldable pub run : List Call → SigningKeys → SigningKeys
run [] s = s
run (c ∷ cs) s = run cs (apply c s)

-- A process that has just started.
abbrev pub started : SigningKeys
started = record {
  current_version_cache = none;
  enabled_versions_cache = none;
  jwk_cache = [];
  signer_version_cache = none;
}

-- A version has one key for ever: Cloud KMS gives that one, or fails.
abbrev pub Constant : (String → Jwk) → SigningKms → Type 0
Constant jwk kms = (version : String) (j : Jwk) → published kms version ≡ ok j → j ≡ jwk version

abbrev pub CallConstant : (String → Jwk) → Call → Type 0
CallConstant jwk (current kms now) = Constant jwk kms
CallConstant jwk (sign kms now) = Constant jwk kms
CallConstant jwk (public_key kms now) = Constant jwk kms
CallConstant jwk (jwks kms now) = Constant jwk kms
CallConstant jwk (rotate kms now) = Constant jwk kms

-- The cached keys are those that Cloud KMS has.
abbrev pub IsTrue : (String → Jwk) → Docs Jwk → Type 0
IsTrue jwk m = (version : String) (j : Jwk) → find version m ≡ some j → j ≡ jwk version

module _ (jwk : String → Jwk) where
  put-IsTrue :
      (version : String) (k : Jwk) (m : Docs Jwk)
      → k ≡ jwk version
      → IsTrue jwk m
      → IsTrue jwk (put version k m)
  put-IsTrue version k m e h v j found =
      ground (arith, eq_iff version v, find-put version v k m, h v j)

  module _ (kms : SigningKms) (constant : Constant jwk kms) where
    pub jwk_for-IsTrue :
        (version : String) (s : SigningKeys)
        → IsTrue jwk s.jwk_cache
        → IsTrue jwk (jwk_for kms version s).1.jwk_cache
    unfolding jwk_for
    jwk_for-IsTrue version s h = elim (Option-cases (find version s.jwk_cache)) [
      | inr (j, found) ↦ rw (jwk_for, found) h
      | inl missing ↦ elim (Result-cases (published kms version)) [
        | inl (j, got) ↦
            rw (jwk_for, missing, got) (put-IsTrue version j s.jwk_cache (constant version j got) h)
        | inr (e, failed) ↦ rw (jwk_for, missing, failed) h
      ]
    ]

    jwks_for-IsTrue :
        (versions : List String) (s : SigningKeys)
        → IsTrue jwk s.jwk_cache
        → IsTrue jwk (jwks_for kms versions s).1.jwk_cache
    unfolding jwks_for
    jwks_for-IsTrue [] s h = h
    jwks_for-IsTrue (version ∷ versions) s h =
        jwks_for-IsTrue versions (jwk_for kms version s).1 (jwk_for-IsTrue version s h)

  -- The other methods leave the cached keys alone.
  current_keeps :
      (kms : SigningKms) (now : ℕ) (s : SigningKeys)
      → (get_current_signing_key_version kms now s).1.jwk_cache ≡ s.jwk_cache
  unfolding get_current_signing_key_version
  current_keeps kms now s = ground arith

  sign_keeps :
      (kms : SigningKms) (now : ℕ) (s : SigningKeys)
      → (signer_key_version kms now s).1.jwk_cache ≡ s.jwk_cache
  unfolding signer_key_version
  sign_keeps kms now s = ground arith

  public_key_keeps :
      (kms : SigningKms) (now : ℕ) (s : SigningKeys)
      → (get_public_key kms now s).1.jwk_cache ≡ s.jwk_cache
  unfolding get_public_key get_current_signing_key_version
  public_key_keeps kms now s = ground arith

  pub enabled_keeps :
      (kms : SigningKms) (now : ℕ) (s : SigningKeys)
      → (get_enabled_versions kms now s).1.jwk_cache ≡ s.jwk_cache
  unfolding get_enabled_versions
  enabled_keeps kms now s = ground arith

  pub rotate_keeps :
      (kms : SigningKms) (now : ℕ) (s : SigningKeys)
      → (rotate_signing_key kms now s).1.jwk_cache ≡ s.jwk_cache
  unfolding rotate_signing_key get_current_signing_key_version
  rotate_keeps kms now s = ground arith

  get_jwks-IsTrue :
      (kms : SigningKms) (now : ℕ) (s : SigningKeys)
      → Constant jwk kms
      → IsTrue jwk s.jwk_cache
      → IsTrue jwk (get_jwks kms now s).1.jwk_cache
  unfolding get_jwks
  get_jwks-IsTrue kms now s constant h =
      let kept : IsTrue jwk (get_enabled_versions kms now s).1.jwk_cache =
        rw (enabled_keeps kms now s) h in
      elim (Result-cases (get_enabled_versions kms now s).0) [
        | inl (vs, listed) ↦
            rw (get_jwks, listed)
              (jwks_for-IsTrue kms constant vs (get_enabled_versions kms now s).1 kept)
        | inr (e, failed) ↦ rw (get_jwks, failed) kept
      ]

  apply-IsTrue :
      (c : Call) (s : SigningKeys)
      → CallConstant jwk c
      → IsTrue jwk s.jwk_cache
      → IsTrue jwk (apply c s).jwk_cache
  apply-IsTrue (current kms now) s constant h = rw (current_keeps kms now s) h
  apply-IsTrue (sign kms now) s constant h = rw (sign_keeps kms now s) h
  apply-IsTrue (public_key kms now) s constant h = rw (public_key_keeps kms now s) h
  apply-IsTrue (jwks kms now) s constant h = get_jwks-IsTrue kms now s constant h
  apply-IsTrue (rotate kms now) s constant h = rw (rotate_keeps kms now s) h

  pub run-IsTrue :
      (cs : List Call) (s : SigningKeys)
      → All (CallConstant jwk) cs
      → IsTrue jwk s.jwk_cache
      → IsTrue jwk (run cs s).jwk_cache
  unfolding run
  run-IsTrue [] s constant h = h
  run-IsTrue (c ∷ cs) s constant h =
      run-IsTrue cs (apply c s) constant.1 (apply-IsTrue c s constant.0 h)
