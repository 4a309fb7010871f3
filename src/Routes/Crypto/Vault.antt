-- ===== src/Routes/Crypto/Vault.antt =====
-- What the routes of routes/crypto.ts work on: the key registry and the audit events that the lineage
-- repository has taken. Cloud KMS is a parameter; Firestore answers.
use chameleon_vault.Prelude.{ℕ, String, Bool, Option, List, [], ◌∷◌, ◌++◌, Result, if◌then◌else◌}
use chameleon_vault.Fault.{Fault}
use chameleon_vault.Keys.Registry.{Keys}
use chameleon_vault.Crypto.Aes.{Bytes, Primitives}

pub data AuditType : Type 0 where
  key_created : AuditType
  key_rotated : AuditType
  encryption_performed : AuditType
  decryption_performed : AuditType

pub record AuditEvent : Type 0 where
  pub event_type : AuditType
  pub user_id : String

pub record KeyVault : Type 0 where
  pub keys : Keys
  pub audit : List AuditEvent

pub record CryptoEnv : Type 0 where
  pub now : ℕ
  -- `ensureTenantKey`, `generateAndEncryptDek` for the n-th user of a batch, `decryptDataEncryptionKey`
  pub ensure_tenant_key : String → Option Fault
  pub new_dek : ℕ → String → Result Fault String
  pub decrypt_dek : String → String → Result Fault Bytes
  pub primitives : Primitives
  pub lineage_up : Bool

-- `lineageRepository.recordEvent(...)`, whose failure is only logged.
abbrev pub record_audit : CryptoEnv → AuditType → String → KeyVault → KeyVault
record_audit env kind user v =
    if env.lineage_up
    then record v { audit = v.audit ++ record { event_type = kind; user_id = user } ∷ [] }
    else v
