-- ===== src/Routes/Certificates.antt =====
-- routes/certificate.ts. An error that says that the key is not shredded or that no cascade is complete is
-- a 404, any other is left to Fastify, which answers 500. The time stamps and the constant names of
-- algorithms are left out of the bodies. The snapshot of the JWKS that a rotation asks GitHub for cannot
-- fail the call, and is left out.
use chameleon_vault.Prelude.{
  ℕ, String, Option, none, some, List, ok, err, Result, ◌==◌, if◌then◌else◌,
}
use chameleon_vault.Fault.{Fault, key_not_shredded, cascade_not_complete}
use chameleon_vault.Certificate.Service.{Vault, IssuerEnv}
use chameleon_vault.Certificate.Retrieval.{
  FoundCertificate, Retrieved, EvidentiaryStatus, get_certificate_for_user,
  get_latest_certificate_for_tenant, get_certificate_by_hash,
}
use chameleon_vault.Certificate.SigningKeys.{
  Jwk, SigningKms, SigningKeys, Rotated, get_public_key, get_jwks, rotate_signing_key,
}
use chameleon_vault.Routes.Http.{Reply, sent, refused, tenant_header}

pub record CertificateBody : Type 0 where
  pub certificate : String
  pub tenant_id : String
  pub user_id : String
  pub evidentiary_status : EvidentiaryStatus

abbrev body_of : String → String → Retrieved → CertificateBody
body_of tenant user c = record {
  certificate = c.certificate;
  tenant_id = tenant;
  user_id = user;
  evidentiary_status = c.evidentiary_status;
}

abbrev pub refusal_code : Fault → ℕ
refusal_code (key_not_shredded user) = 404
refusal_code (cascade_not_complete user) = 404
refusal_code _ = 500

abbrev certificate_reply : String → String → Result Fault Retrieved → Reply CertificateBody
certificate_reply tenant user (err e) = refused (refusal_code e)
certificate_reply tenant user (ok c) = sent 200 (body_of tenant user c)

-- GET /certificate/:userId
unfoldable pub certificate_route :
    IssuerEnv → Option String → String → Vault → Reply CertificateBody × Vault
certificate_route env header user v =
    let out = get_certificate_for_user env user (tenant_header header) v in
    (certificate_reply (tenant_header header) user out.0, out.1)

abbrev latest_reply : String → Result Fault (Option (Retrieved × String)) → Reply CertificateBody
latest_reply tenant (err e) = refused 500
latest_reply tenant (ok none) = refused 404
latest_reply tenant (ok (some (c, user))) = sent 200 (body_of tenant user c)

-- GET /certificate/latest
unfoldable pub latest_route : IssuerEnv → Option String → Vault → Reply CertificateBody × Vault
latest_route env header v =
    let out = get_latest_certificate_for_tenant env (tenant_header header) v in
    (latest_reply (tenant_header header) out.0, out.1)

abbrev by_hash_reply : Result Fault (Option FoundCertificate) → Reply FoundCertificate
by_hash_reply (err e) = refused 500
by_hash_reply (ok none) = refused 404
by_hash_reply (ok (some c)) = sent 200 c

-- GET /certificate-chain/by-hash/:hash
unfoldable pub by_hash_route : IssuerEnv → String → Vault → Reply FoundCertificate × Vault
by_hash_route env hash v =
    let out = get_certificate_by_hash env hash v in (by_hash_reply out.0, out.1)

abbrev reply_of : {A : Type 0} → Result Fault A × SigningKeys → Reply A × SigningKeys
reply_of (err e, s) = (refused 500, s)
reply_of (ok a, s) = (sent 200 a, s)

-- GET /public-key
unfoldable pub public_key_route : SigningKms → ℕ → SigningKeys → Reply String × SigningKeys
public_key_route kms now s = reply_of (get_public_key kms now s)

-- GET /.well-known/jwks.json
unfoldable pub jwks_route : SigningKms → ℕ → SigningKeys → Reply (List Jwk) × SigningKeys
jwks_route kms now s = reply_of (get_jwks kms now s)

-- POST /admin/signing-key/rotate
unfoldable pub rotate_signing_key_route : SigningKms → ℕ → SigningKeys → Reply Rotated × SigningKeys
rotate_signing_key_route kms now s = reply_of (rotate_signing_key kms now s)

-- GET /rekor-signing-public-key; the argument is what `getPublicKeyPem` answers, if there is a client.
unfoldable pub rekor_public_key_route : Option (Result Fault String) → Reply String
rekor_public_key_route none = refused 404
rekor_public_key_route (some (err e)) = refused 500
rekor_public_key_route (some (ok key)) = if key == "" then refused 404 else sent 200 key
