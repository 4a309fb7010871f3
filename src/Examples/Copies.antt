-- ===== src/Examples/Copies.antt =====
-- The theorem on the copies of a declared table, at a sample resource.
use chameleon_vault.Prelude.{refl, none, some}
use chameleon_vault.Declarations.Strategies.{
  has_source_redaction_strategy, resolve_source_redaction_strategies,
}
use chameleon_vault.Redaction.Identifiers.{
  parse_big_query_resource_id, until_dot, assert_safe_identifiers, is_safe_identifier, all_parts,
}
use chameleon_vault.Redaction.Copies.{
  CopyEnv, shadow_view, ensure_shadow_copy, drop_shadow_copy_if_exists,
}
use chameleon_vault.Redaction.Scoped.{Scoped, copies-Scoped}
use chameleon_vault.Examples.Data.{orders}

abbrev copies : CopyEnv
copies = record {
  pii_vault = some (record { project_id = "acme"; dataset_id = "vault"; table_id = "pii_vault" });
  batch_decrypt_function_ref = some "acme.views.decrypt";
  answer = λ step. none;
}

copies-Scoped_example : Scoped orders
unfolding ensure_shadow_copy shadow_view drop_shadow_copy_if_exists has_source_redaction_strategy
    resolve_source_redaction_strategies parse_big_query_resource_id until_dot
    assert_safe_identifiers is_safe_identifier all_parts
copies-Scoped_example = copies-Scoped copies orders refl
