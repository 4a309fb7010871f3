-- ===== src/Certificate/Retrieval.antt =====
-- services/certificate-service.ts: the ways to read a certificate back, and what is said of its
-- evidence, types/evidentiary-status.ts. An empty path counts as missing.
use chameleon_vault.Prelude.{
  ℕ, String, Bool, true, false, Option, none, some, ok, err, Result, Exec, ◌>>=◌, pure, lift,
  if◌then◌else◌, is_some,
}
use chameleon_vault.Fault.{Fault}
use chameleon_vault.Requests.Types.{certificate_issued, status_eq, Request}
use chameleon_vault.Requests.Repository.{get_deletion_request}
use chameleon_vault.Requests.Queries.{
  get_latest_completed_deletion_request_for_user, get_most_recent_certificate_issued_for_tenant,
}
use chameleon_vault.Keys.Registry.{get_key_status, or_text}
use chameleon_vault.Certificate.Chain.{
  TsaStatus, RekorStatus, TsaTimestampInfo, RekorLogEntryInfo, get_entry_by_hash,
}
use chameleon_vault.Certificate.Signer.{assert_key_shredded, assert_cascade_complete}
use chameleon_vault.Certificate.Bucket.{StoredCertificate, download_certificate}
use chameleon_vault.Certificate.Service.{Vault, IssuerEnv, on_bucket, claims_for, sign_claims}

pub data TimestampStatus : Type 0 where
  obtained : TimestampStatus
  failed : TimestampStatus
  not_attempted : TimestampStatus

pub data LogStatus : Type 0 where
  published : LogStatus
  failed : LogStatus
  not_attempted : LogStatus

pub record EvidentiaryStatus : Type 0 where
  pub linked : Bool
  pub chain_sequence : Option ℕ
  pub timestamp : TimestampStatus
  pub transparency_log : LogStatus

abbrev timestamp_status : Option TsaTimestampInfo → TimestampStatus
timestamp_status none = TimestampStatus.not_attempted
timestamp_status (some i) = elim i.status [
  | TsaStatus.obtained ↦ TimestampStatus.obtained
  | TsaStatus.failed ↦ TimestampStatus.failed
]

abbrev log_status : Option RekorLogEntryInfo → LogStatus
log_status none = LogStatus.not_attempted
log_status (some i) = elim i.status [
  | RekorStatus.published ↦ LogStatus.published
  | RekorStatus.failed ↦ LogStatus.failed
]

abbrev decoded : Result Fault (Option ℕ) → Option ℕ
decoded (ok n) = n
decoded (err e) = none

unfoldable pub build_evidentiary_status :
    IssuerEnv → String → Option TsaTimestampInfo → Option RekorLogEntryInfo → EvidentiaryStatus
build_evidentiary_status env certificate tsa rekor =
    let n = decoded (env.decode_jwt certificate) in
    record {
      linked = is_some n;
      chain_sequence = n;
      timestamp = timestamp_status tsa;
      transparency_log = log_status rekor;
    }

pub record Retrieved : Type 0 where
  pub certificate : String
  pub stored : Bool
  pub evidentiary_status : EvidentiaryStatus

-- The stored certificate.
abbrev from_bucket : IssuerEnv → String → Exec Fault Vault Retrieved
from_bucket env path = do
  c ← on_bucket (download_certificate env.bucket path)
  pure (record {
    certificate = c.certificate;
    stored = true;
    evidentiary_status = build_evidentiary_status env c.certificate c.tsa_timestamp c.rekor_entry;
  })

-- The fallback: signed on demand, in no chain.
abbrev on_demand : IssuerEnv → String → String → Request → Exec Fault Vault Retrieved
on_demand env user_id tenant_id r = do
  ghosts ← lift env.ghosts
  claims ← claims_for env user_id tenant_id (some r.deletion_request_id) ghosts
  signed ← lift (sign_claims env.signing claims none none)
  pure (record {
    certificate = signed.certificate;
    stored = false;
    evidentiary_status = build_evidentiary_status env signed.certificate none none;
  })

-- `status === 'CERTIFICATE_ISSUED' && certificate_gcs_path`; an empty path counts as missing.
abbrev retrieve : IssuerEnv → String → String → Request → Exec Fault Vault Retrieved
retrieve env user_id tenant_id r =
    if status_eq r.status certificate_issued
    then elim (or_text r.certificate_gcs_path none) [
      | none ↦ on_demand env user_id tenant_id r
      | some path ↦ from_bucket env path
    ]
    else on_demand env user_id tenant_id r

unfoldable pub get_certificate_for_user : IssuerEnv → String → String → Exec Fault Vault Retrieved
get_certificate_for_user env user_id tenant_id v =
    (do
      _ ← lift (
          assert_key_shredded user_id
            (get_key_status (env.chain_clock 0) user_id tenant_id v.evidence.keys))
      r ← lift (
          assert_cascade_complete user_id
            (get_latest_completed_deletion_request_for_user user_id tenant_id v.evidence.requests))
      retrieve env user_id tenant_id r)
      v

-- With the user whose certificate it is.
unfoldable pub get_latest_certificate_for_tenant :
    IssuerEnv → String → Exec Fault Vault (Option (Retrieved × String))
get_latest_certificate_for_tenant env tenant_id v =
    elim (get_most_recent_certificate_issued_for_tenant tenant_id v.evidence.requests) [
      | none ↦ (ok none, v)
      | some r ↦
          (do c ← get_certificate_for_user env r.user_id tenant_id; pure (some (c, r.user_id))) v
    ]

abbrev path_of : Option Request → Option String
path_of none = none
path_of (some r) = or_text r.certificate_gcs_path none

pub record FoundCertificate : Type 0 where
  pub certificate : String
  pub tsa_timestamp : Option TsaTimestampInfo
  pub rekor_entry : Option RekorLogEntryInfo

abbrev found_of : StoredCertificate → FoundCertificate
found_of c = record {
  certificate = c.certificate;
  tsa_timestamp = c.tsa_timestamp;
  rekor_entry = c.rekor_entry;
}

abbrev stored_at : IssuerEnv → Option String → Exec Fault Vault (Option FoundCertificate)
stored_at env none v = (ok none, v)
stored_at env (some path) v =
    (do c ← on_bucket (download_certificate env.bucket path); pure (some (found_of c))) v

unfoldable pub get_certificate_by_hash :
    IssuerEnv → String → Exec Fault Vault (Option FoundCertificate)
get_certificate_by_hash env hash v = elim (get_entry_by_hash hash v.chain) [
  | none ↦ (ok none, v)
  | some e ↦
      stored_at env (path_of (get_deletion_request e.deletion_request_id v.evidence.requests)) v
]
