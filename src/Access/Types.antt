-- ===== src/Access/Types.antt =====
-- types/analyst-access.ts.
use chameleon_vault.Prelude.{ℕ, String, Option}

pub data Role : Type 0 where
  analyst : Role
  auditor : Role

pub data Source : Type 0 where
  claim_link : Source
  console_session : Source

pub data Kind : Type 0 where
  analyst_kind : Kind
  service : Kind

pub record AnalystAccess : Type 0 where
  pub claim_token_hash : String
  pub credential_key_hash : Option String
  pub tenant_id : String
  pub analyst_email : String
  pub created_at : ℕ
  pub expires_at : ℕ
  pub claimed_at : Option ℕ
  pub revoked_at : Option ℕ
  pub role : Option Role
  pub source : Option Source
  pub credential_expires_at : Option ℕ
  pub kind : Option Kind
