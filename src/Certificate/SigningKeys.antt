-- ===== src/Certificate/SigningKeys.antt =====
-- services/certificate-service.ts: the versions of the signing key and their three caches. Cloud KMS's
-- answers at one call, and the JWK of a PEM by Node's crypto, are fields of `SigningKms`; the cache of the
-- signer, certificate-signer/sign.ts, stands beside the service's. The keys of `getJwks` are fetched one by
-- one here: a failing one does not stop the others, and the fault of the first in order is thrown. A call
-- reads the clock once; the constant members `use` and `alg` of a key are left out.
use chameleon_vault.Prelude.{
  ℕ, ◌+◌, String, Option, none, some, List, [], ◌∷◌, Docs, find, put, ok, err, Result, Exec, ◌>>=◌,
  lift, if◌then◌else◌, ltb,
}
use chameleon_vault.Fault.{Fault}

pub record Jwk : Type 0 where
  pub exported : String
  pub kid : String

pub record SigningKms : Type 0 where
  pub get_newest_enabled_version : Result Fault String
  pub list_enabled_versions : Result Fault (List String)
  pub get_public_key : String → Result Fault String
  pub create_key_version : Result Fault String
  -- Why the wait ends without an enabled version.
  pub wait_for_version_enabled : String → Option Fault
  -- `crypto.createPublicKey(pem).export({ format: 'jwk' })`
  pub export_jwk : String → Result Fault String

pub record Cached (A : Type 0) : Type 0 where
  pub value : A
  pub expires_at : ℕ

pub record SigningKeys : Type 0 where
  pub current_version_cache : Option (Cached String)
  pub enabled_versions_cache : Option (Cached (List String))
  pub jwk_cache : Docs Jwk
  -- The signer's own `_currentVersionCache`.
  pub signer_version_cache : Option (Cached String)

abbrev pub current_version_ttl_ms : ℕ
current_version_ttl_ms = 300000

abbrev pub enabled_versions_ttl_ms : ℕ
enabled_versions_ttl_ms = 600000

-- `if (cached && cached.expiresAt > Date.now()) return cached.value`
abbrev pub fresh : {A : Type 0} → ℕ → Option (Cached A) → Option A
fresh now none = none
fresh now (some c) = if ltb now c.expires_at then some c.value else none

unfoldable pub get_current_signing_key_version : SigningKms → ℕ → Exec Fault SigningKeys String
get_current_signing_key_version kms now s = elim (fresh now s.current_version_cache) [
  | some v ↦ (ok v, s)
  | none ↦ elim kms.get_newest_enabled_version [
    | err e ↦ (err e, s)
    | ok v ↦ (
      ok v,
      record s {
        current_version_cache =
            some (record { value = v; expires_at = now + current_version_ttl_ms });
      },
    )
  ]
]

-- The signer's method of the same name.
unfoldable pub signer_key_version : SigningKms → ℕ → Exec Fault SigningKeys String
signer_key_version kms now s = elim (fresh now s.signer_version_cache) [
  | some v ↦ (ok v, s)
  | none ↦ elim kms.get_newest_enabled_version [
    | err e ↦ (err e, s)
    | ok v ↦ (
      ok v,
      record s {
        signer_version_cache =
            some (record { value = v; expires_at = now + current_version_ttl_ms });
      },
    )
  ]
]

unfoldable pub get_public_key : SigningKms → ℕ → Exec Fault SigningKeys String
get_public_key kms now = do
  version ← get_current_signing_key_version kms now
  lift (kms.get_public_key version)

unfoldable pub get_enabled_versions : SigningKms → ℕ → Exec Fault SigningKeys (List String)
get_enabled_versions kms now s = elim (fresh now s.enabled_versions_cache) [
  | some vs ↦ (ok vs, s)
  | none ↦ elim kms.list_enabled_versions [
    | err e ↦ (err e, s)
    | ok vs ↦ (
      ok vs,
      record s {
        enabled_versions_cache =
            some (record { value = vs; expires_at = now + enabled_versions_ttl_ms });
      },
    )
  ]
]

abbrev pub published : SigningKms → String → Result Fault Jwk
published kms version = elim (kms.get_public_key version) [
  | err e ↦ err e
  | ok pem ↦ elim (kms.export_jwk pem) [
    | err e ↦ err e
    | ok exported ↦ ok (record { exported = exported; kid = version })
  ]
]

-- The body of the `map` in `getJwks`.
unfoldable pub jwk_for : SigningKms → String → Exec Fault SigningKeys Jwk
jwk_for kms version s = elim (find version s.jwk_cache) [
  | some jwk ↦ (ok jwk, s)
  | none ↦ elim (published kms version) [
    | err e ↦ (err e, s)
    | ok jwk ↦ (ok jwk, record s { jwk_cache = put version jwk s.jwk_cache })
  ]
]

abbrev pub both : Result Fault Jwk → Result Fault (List Jwk) → Result Fault (List Jwk)
both (err e) rest = err e
both (ok jwk) (err e) = err e
both (ok jwk) (ok rest) = ok (jwk ∷ rest)

unfoldable pub jwks_for : SigningKms → List String → Exec Fault SigningKeys (List Jwk)
jwks_for kms [] s = (ok [], s)
jwks_for kms (version ∷ versions) s =
    let rest = jwks_for kms versions (jwk_for kms version s).1 in
    (both (jwk_for kms version s).0 rest.0, rest.1)

unfoldable pub get_jwks : SigningKms → ℕ → Exec Fault SigningKeys (List Jwk)
get_jwks kms now = do versions ← get_enabled_versions kms now; jwks_for kms versions

pub record Rotated : Type 0 where
  pub new_version : String
  pub previous_version : String

abbrev pub invalidated : SigningKeys → SigningKeys
invalidated s = record s {
  current_version_cache = none;
  enabled_versions_cache = none;
  signer_version_cache = none;
}

abbrev pub mint : SigningKms → String → SigningKeys → Result Fault Rotated × SigningKeys
mint kms previous s = elim kms.create_key_version [
  | err e ↦ (err e, s)
  | ok version ↦ elim (kms.wait_for_version_enabled version) [
    | some e ↦ (err e, s)
    | none ↦ (ok (record { new_version = version; previous_version = previous }), invalidated s)
  ]
]

unfoldable pub rotate_signing_key : SigningKms → ℕ → Exec Fault SigningKeys Rotated
rotate_signing_key kms now = do
  previous ← get_current_signing_key_version kms now
  mint kms previous
