-- ===== src/Certificate/Claims.antt =====
-- types/index.ts: the claims of a certificate. Constant texts and the snake_case aliases are left out;
-- a date is the number of its milliseconds.
use chameleon_vault.Prelude.{ℕ, ◌*◌, String, Bool, Option, List}

pub data LineageStatus : Type 0 where
  erased : LineageStatus
  confirmed_absent : LineageStatus

pub record CertificateLineageItem : Type 0 where
  pub system : String
  pub status : LineageStatus
  pub timestamp : ℕ

pub data ExceptionStrategy : Type 0 where
  redact_in_place : ExceptionStrategy
  shadow_copy : ExceptionStrategy
  encrypted_copy : ExceptionStrategy

pub record CertificateBackupImmunityItem : Type 0 where
  pub resource_id : String
  pub strategy : ExceptionStrategy
  pub backup_immune : Bool
  pub redacted_at : Option ℕ
  pub immune_as_of : Option ℕ

pub record CertificateLineageCoverage : Type 0 where
  pub destinations_checked : ℕ
  pub destinations_succeeded : ℕ
  pub known_destination_types : List String

pub data DestructionStatus : Type 0 where
  complete : DestructionStatus
  pending : DestructionStatus

-- The ghost-data findings are handed through; each is a text here.
pub record DestructionCertificateClaims : Type 0 where
  pub sub : String
  pub tenant_id : String
  pub key_destruction_status : DestructionStatus
  pub iat : ℕ
  pub jti : String
  pub shred_date : ℕ
  pub key_fingerprint : String
  pub lineage_summary : List CertificateLineageItem
  pub source_redaction_exceptions : List CertificateBackupImmunityItem
  pub lineage_coverage : CertificateLineageCoverage
  pub ghost_data_summary : List String

-- REDACT_IN_PLACE_TIME_TRAVEL_CEILING_HOURS and TIME_TRAVEL_CEILING_MS
abbrev pub time_travel_ceiling_ms : ℕ
time_travel_ceiling_ms = 168 * 60 * 60 * 1000
