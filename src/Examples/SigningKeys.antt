-- ===== src/Examples/SigningKeys.antt =====
-- The theorem on the rotation of the signing key, at a sample Cloud KMS that rotates once.
use chameleon_vault.Prelude.{
  String, refl, none, List, [], ◌∷◌, ok, err, find, put, arith, includes, if◌then◌else◌,
}
use chameleon_vault.Fault.{outage}
use chameleon_vault.Certificate.SigningKeys.{
  Jwk, SigningKms, rotate_signing_key, get_current_signing_key_version, signer_key_version,
  get_jwks, jwks_for, jwk_for, get_enabled_versions,
}
use chameleon_vault.Certificate.Published.{Call, sign, jwks, run, started, Constant}
use chameleon_vault.Certificate.KeyRotation.{Served, rotation_is_Served}

abbrev jwk : String → Jwk
jwk version = record { exported = version; kid = version }

abbrev kms_with : String → List String → SigningKms
kms_with latest versions = record {
  get_newest_enabled_version = ok latest;
  list_enabled_versions = ok versions;
  get_public_key =
      λ version. if includes version versions then ok version else err (outage "not enabled");
  create_key_version = ok "v2";
  wait_for_version_enabled = λ version. none;
  export_jwk = λ pem. ok pem;
}

abbrev old_kms : SigningKms
old_kms = kms_with "v1" ("v1" ∷ [])

abbrev new_kms : SigningKms
new_kms = kms_with "v2" ("v1" ∷ "v2" ∷ [])

abbrev calls : List Call
calls = sign old_kms 0 ∷ jwks old_kms 10 ∷ []

old-Constant : Constant jwk old_kms
old-Constant version j got = ground arith

new-Constant : Constant jwk new_kms
new-Constant version j got = ground arith

rotation_is_Served_example :
    Served jwk new_kms 30 "v2"
      ("v1" ∷ "v2" ∷ [])
      (rotate_signing_key old_kms 20 (run calls started)).1
unfolding run rotate_signing_key get_current_signing_key_version signer_key_version get_jwks
    jwks_for jwk_for get_enabled_versions find put
rotation_is_Served_example =
    rotation_is_Served jwk calls old_kms new_kms 20 30
      (record { new_version = "v2"; previous_version = "v1" }) "v2" ("v1" ∷ "v2" ∷ [])
      (old-Constant, (old-Constant, tt)) refl new-Constant (refl, (refl, tt)) refl refl
