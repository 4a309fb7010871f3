-- ===== src/Redaction/Service.antt =====
-- services/source-redaction-service.ts: the plans, and the loops of a deletion. What BigQuery answers to a statement is a parameter.
use chameleon_vault.Prelude.{
  ℕ, String, Bool, true, false, Option, none, some, List, map, keep, ok, err, Result, and_then,
}
use chameleon_vault.Declarations.Types.{
  PiiRegistryEntry, SourceRedactionStrategy, manual_owner_connector,
}
use chameleon_vault.Declarations.Strategies.{has_source_redaction_strategy}
use chameleon_vault.Declarations.Registry.{Declarations, list_entries}
use chameleon_vault.Redaction.Statements.{Statement, redact_statement, delete_statement}

pub record SourceRedactionResult : Type 0 where
  pub resource_id : String
  pub success : Bool
  pub rows_affected : Option ℕ
  pub error : Option String

abbrev manual_entries : String → Declarations → List PiiRegistryEntry
manual_entries tenant_id d =
    list_entries
      (record {
        tenant_id = some tenant_id;
        system = none;
        owner_connector = some manual_owner_connector;
        scan_enabled = none;
        actor_email = none;
      })
      d

unfoldable pub plan_redaction : String → Declarations → List PiiRegistryEntry
plan_redaction tenant_id d =
    keep (λ e. has_source_redaction_strategy e SourceRedactionStrategy.redact_in_place)
      (manual_entries tenant_id d)

unfoldable pub plan_encrypted_copy_deletion : String → Declarations → List PiiRegistryEntry
plan_encrypted_copy_deletion tenant_id d =
    keep (λ e. has_source_redaction_strategy e SourceRedactionStrategy.encrypted_copy)
      (manual_entries tenant_id d)

-- The number of rows, or the message of the error that was thrown.
abbrev pub Runner : Type 0
Runner = Statement → Result String ℕ

abbrev pub result_of : PiiRegistryEntry → Result String ℕ → SourceRedactionResult
result_of e (ok n) = record {
  resource_id = e.resource_id;
  success = true;
  rows_affected = some n;
  error = none;
}
result_of e (err message) = record {
  resource_id = e.resource_id;
  success = false;
  rows_affected = none;
  error = some message;
}

unfoldable pub redact_user_in_declared_sources :
    Runner → String → String → Declarations → List SourceRedactionResult
redact_user_in_declared_sources run user_id tenant_id d =
    map (λ e. result_of e (and_then (redact_statement e user_id tenant_id) run))
      (plan_redaction tenant_id d)

unfoldable pub delete_user_from_encrypted_copies :
    Runner → String → String → Declarations → List SourceRedactionResult
delete_user_from_encrypted_copies run user_id tenant_id d =
    map (λ e. result_of e (and_then (delete_statement e user_id tenant_id) run))
      (plan_encrypted_copy_deletion tenant_id d)
