-- ===== src/Examples/Registry.antt =====
-- The theorems on the registry's routes, at a sample form.
use chameleon_vault.Prelude.{refl, none, some, [], ◌∷◌, ok, find, false}
use chameleon_vault.Declarations.Types.{PiiSystem, PiiClassification, PiiHandling, PiiRegistryEntry}
use chameleon_vault.Declarations.Registry.{Declarations, get_entry, upsert_entry}
use chameleon_vault.Declarations.Strategies.{resolve_source_redaction_strategies}
use chameleon_vault.Declarations.Forms.Input.{is_non_empty_string, matches_uri, has_no_space}
use chameleon_vault.Declarations.Forms.Errors.{form_errors, array_errors, field_errors}
use chameleon_vault.Declarations.Forms.Build.{build_manual_entry, made_entry, fields_of}
use chameleon_vault.Declarations.Policy.{evaluate_entry}
use chameleon_vault.Routes.Registry.Callers.{
  Caller, require_write_auth, after_prefix, tenant_of, trim_start, trim_end,
}
use chameleon_vault.Routes.Registry.Upsert.{
  RegistryEnv, Declared, upsert, upsert_at, upsert_route, base_table, names_view,
  names_missing_column, missing_columns,
}
use chameleon_vault.Routes.Registry.Declaring.{Reads, upsert-Reads}
use chameleon_vault.Routes.Registry.Refusing.{Untouched, refused-Untouched}
use chameleon_vault.Examples.Declared.{form}

abbrev env : RegistryEnv
env = record {
  now = 7;
  encode = λ s. s;
  decode = λ s. some s;
  down = none;
  write_token = some "secret";
  table_type = some (λ id. ok (some base_table));
  columns = some (λ id. ok ("user_id" ∷ "tenant_id" ∷ "email" ∷ []));
  discovery = λ tenant. ok [];
  copies = none;
}

abbrev caller : Caller
caller = record { analyst = none; authorization = some "Bearer secret" }

abbrev empty_registry : Declarations
empty_registry = record { entries = []; durable = [] }

abbrev declared : PiiRegistryEntry
declared = made_entry form "acme" 7 none none PiiSystem.bigquery (
    record {
      name = "email";
      classification = PiiClassification.direct_identifier;
      handling = PiiHandling.encrypt;
      required_in_mart = false;
    }
    ∷ [])

abbrev answer : Declared
answer = record {
  resource = declared;
  policy = evaluate_entry declared;
  shadow_copy_error = none;
  encrypted_copy_error = none;
}

upsert-Reads_example :
    Reads env
      (some " acme ")
      form.resource_id
      answer
      (upsert_route env caller (some " acme ") form none empty_registry).1
unfolding upsert_route upsert_at upsert require_write_auth after_prefix tenant_of trim_start
    trim_end names_view names_missing_column missing_columns build_manual_entry form_errors
    array_errors field_errors fields_of is_non_empty_string matches_uri has_no_space upsert_entry
    get_entry find resolve_source_redaction_strategies
upsert-Reads_example =
    upsert-Reads env caller (some " acme ") form none empty_registry 201 answer form.resource_id
      refl refl

refused-Untouched_example :
    Untouched env (record caller { authorization = none }) (some "acme") empty_registry
refused-Untouched_example =
    refused-Untouched env (record caller { authorization = none }) (some "acme") empty_registry
