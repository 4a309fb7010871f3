-- ===== src/Certificate/Service.antt =====
-- services/certificate-service.ts, and `signClaims` of certificate-signer/sign.ts. The ghost-data
-- findings, the time-stamping authority, the transparency log, Cloud KMS, the hash, the encodings of a
-- token and the follow-up writes' outages are fields of `IssuerEnv`.
use Prim.Native.String
use chameleon_vault.Prelude.{
  ℕ, String, Option, none, some, List, ok, err, Result, Exec, ◌>>=◌, pure, lift, best_effort,
  and_then,
}
use chameleon_vault.Fault.{Fault}
use chameleon_vault.Janitor.Names.{get_registered_connector_names}
use chameleon_vault.Certificate.Chain.{
  Chain, ChainSignResult, Appended, TsaTimestampInfo, RekorLogEntryInfo, append_to_chain,
  record_tsa_timestamp, record_rekor_entry,
}
use chameleon_vault.Certificate.Claims.{DestructionCertificateClaims}
use chameleon_vault.Certificate.Signer.{Evidence, SignerEnv, generate_claims}
use chameleon_vault.Certificate.Bucket.{Bucket, BucketEnv, StoredCertificate, upload_certificate}

pub record Vault : Type 0 where
  pub evidence : Evidence
  pub chain : Chain
  pub bucket : Bucket

pub record SigningEnv : Type 0 where
  -- `getCurrentSigningKeyVersion()`
  pub version : Result Fault String
  pub header : String → String
  pub payload : DestructionCertificateClaims → Option String → Option ℕ → String
  pub asymmetric_sign : String → String → Result Fault String
  pub sha256 : String → String

pub record IssuerEnv : Type 0 where
  pub signer : SignerEnv
  pub signing : SigningEnv
  pub bucket : BucketEnv
  pub ghosts : Result Fault (List String)
  pub chain_clock : ℕ → ℕ
  pub tsa : Option (String → TsaTimestampInfo)
  pub rekor : Option (String → Option String → RekorLogEntryInfo)
  pub tsa_record_outage : Option Fault
  pub rekor_record_outage : Option Fault
  -- `decodeJwt(certificate).chainSequence`, if it is a number
  pub decode_jwt : String → Result Fault (Option ℕ)

abbrev dot : String → String → String
dot a b = String.◌++◌ a (String.◌++◌ "." b)

unfoldable pub sign_claims :
    SigningEnv
    → DestructionCertificateClaims
    → Option String
    → Option ℕ
    → Result Fault ChainSignResult
sign_claims env claims previous n = and_then env.version λ version.
    let unsigned = dot (env.header version) (env.payload claims previous n) in
    and_then (env.asymmetric_sign unsigned version) λ signature. ok (record {
      certificate = dot unsigned signature;
      certificate_hash = env.sha256 (dot unsigned signature);
    })

-- A step on one of the stores.
abbrev pub on_chain : {A : Type 0} → Exec Fault Chain A → Exec Fault Vault A
on_chain m v = let out = m v.chain in (out.0, record v { chain = out.1 })

abbrev pub on_bucket : {A : Type 0} → Exec Fault Bucket A → Exec Fault Vault A
on_bucket m v = let out = m v.bucket in (out.0, record v { bucket = out.1 })

-- A write that may be rejected before it reaches the store.
abbrev pub unless : {A : Type 0} → Option Fault → Exec Fault Chain A → Exec Fault Chain A
unless none m c = m c
unless (some e) m c = (err e, c)

-- `if (this.tsaClient) { ... }`: neither the client nor the swallowed write can throw.
unfoldable pub timestamp : IssuerEnv → Appended → Exec Fault Vault (Option TsaTimestampInfo)
timestamp env a v = elim env.tsa [
  | none ↦ (ok none, v)
  | some request_timestamp ↦
      let info = request_timestamp a.signed.certificate_hash in
      (
        ok (some info),
        record v {
          chain =
              best_effort
                (unless env.tsa_record_outage (record_tsa_timestamp a.signed.certificate_hash info))
                v.chain;
        },
      )
]

unfoldable pub publish : IssuerEnv → Appended → Exec Fault Vault (Option RekorLogEntryInfo)
publish env a v = elim env.rekor [
  | none ↦ (ok none, v)
  | some publish_certificate_hash ↦
      let info = publish_certificate_hash a.signed.certificate_hash a.previous_hash in
      (
        ok (some info),
        record v {
          chain =
              best_effort
                (unless env.rekor_record_outage (record_rekor_entry a.signed.certificate_hash info))
                v.chain;
        },
      )
]

abbrev pub wrapper :
    IssuerEnv
    → String
    → String
    → Appended
    → Option TsaTimestampInfo
    → Option RekorLogEntryInfo
    → StoredCertificate
wrapper env user_id request a tsa rekor = record {
  certificate = a.signed.certificate;
  user_id = user_id;
  deletion_request_id = request;
  timestamp = env.bucket.now;
  hash = a.signed.certificate_hash;
  previous_certificate_hash = a.previous_hash;
  chain_sequence = a.sequence;
  tsa_timestamp = tsa;
  rekor_entry = rekor;
}

pub record Issued : Type 0 where
  pub certificate : String
  pub gcs_path : String

-- After the append.
abbrev pub finish_issue : IssuerEnv → String → String → String → Appended → Exec Fault Vault Issued
finish_issue env user_id request tenant_id a = do
  tsa ← timestamp env a
  rekor ← publish env a
  path ←
      on_bucket (upload_certificate env.bucket tenant_id (wrapper env user_id request a tsa rekor))
  pure (record { certificate = a.signed.certificate; gcs_path = path })

abbrev pub claims_for :
    IssuerEnv
    → String
    → String
    → Option String
    → List String
    → Exec Fault Vault DestructionCertificateClaims
claims_for env user_id tenant_id request ghosts v = (
  generate_claims env.signer user_id tenant_id request ghosts get_registered_connector_names
      v.evidence,
  v,
)

unfoldable pub issue_and_store_certificate :
    IssuerEnv → String → String → String → Exec Fault Vault Issued
issue_and_store_certificate env user_id request tenant_id = do
  ghosts ← lift env.ghosts
  claims ← claims_for env user_id tenant_id (some request) ghosts
  a ← on_chain (
      append_to_chain env.chain_clock tenant_id request
        (λ previous n. sign_claims env.signing claims previous (some n)))
  finish_issue env user_id request tenant_id a
