-- ===== src/Redaction/Copies.antt =====
-- services/source-redaction-service.ts: the shadow view and the encrypted copy that are kept when a resource
-- is declared, and the columns of services/pii-vault-pivot-sql.ts. What BigQuery answers to a call is a
-- parameter; a copy answers with the calls that it made. The messages of the errors are shortened.
use chameleon_vault.Prelude.{
  ℕ, String, Bool, true, false, Option, none, some, List, [], ◌∷◌, ◌++◌, map, keep, ok, err, Result,
  and_then, if◌then◌else◌, nat_beq,
}
use chameleon_vault.Keys.Registry.{or_text}
use chameleon_vault.Declarations.Types.{
  PiiRegistryEntry, PiiFieldPolicy, PiiHandling, encrypt, SourceRedactionStrategy,
}
use chameleon_vault.Declarations.Strategies.{has_source_redaction_strategy}
use chameleon_vault.Redaction.Identifiers.{
  assert_safe_identifiers, parse_big_query_resource_id, TableRef, escape_sql_string_literal,
}
use chameleon_vault.Redaction.Statements.{
  join, names_of, present, table_name, require_bigquery, require_user_column, require_fields,
  is_bigquery, ◌+++◌,
}

-- `buildPiiVaultPivotColumns`
abbrev pivot_column : String → String → String
pivot_column decrypt_ref field =
    "ARRAY_AGG(IF(field_name = '"
    +++ escape_sql_string_literal field
    +++ "', `"
    +++ decrypt_ref
    +++ "`(CAST(encrypted_value AS STRING), user_id, tenant_id), NULL) "
    +++ "IGNORE NULLS ORDER BY synced_at DESC LIMIT 1)[SAFE_OFFSET(0)] AS "
    +++ field

unfoldable pub build_pii_vault_pivot_columns : List String → String → List String
build_pii_vault_pivot_columns fields decrypt_ref = map (pivot_column decrypt_ref) fields

-- A call of BigQuery.
pub data Step : Type 0 where
  delete_table : TableRef → Step
  create_view : TableRef → String → Step
  query : String → Step

pub record BigQueryError : Type 0 where
  pub code : ℕ
  pub message : String

pub record CopyEnv : Type 0 where
  pub pii_vault : Option TableRef
  pub batch_decrypt_function_ref : Option String
  pub answer : Step → Option BigQueryError

-- The result of a method, and the calls that it made.
abbrev pub Calls : Type 0
Calls = Result String (Unit {0}) × List Step

infixr 4 ◌and◌
abbrev pub ◌and◌ : Calls → Calls → Calls
(ok _, xs) and (r, ys) = (r, xs ++ ys)
(err m, xs) and (r, ys) = (err m, xs)

-- `catch`: an error with this code is taken as done.
abbrev outcome_of : ℕ → Option BigQueryError → Result String (Unit {0})
outcome_of ignored none = ok tt
outcome_of ignored (some e) = if nat_beq e.code ignored then ok tt else err e.message

abbrev call : CopyEnv → Step → Calls
call env s = (elim (env.answer s) [ none ↦ ok tt | some e ↦ err e.message ], s ∷ [])

abbrev suffixed : TableRef → String → TableRef
suffixed t suffix = record t { table_id = t.table_id +++ suffix }

abbrev is_encrypted : PiiFieldPolicy → Bool
is_encrypted f = elim f.handling [
  | encrypt ↦ true
  | PiiHandling.tokenize ↦ false
  | PiiHandling.redact ↦ false
  | PiiHandling.hash_surrogate ↦ false
  | PiiHandling.allow_aggregate_only ↦ false
  | PiiHandling.manual_review ↦ false
]

abbrev pub encrypted_fields_of : PiiRegistryEntry → List String
encrypted_fields_of e = names_of (keep is_encrypted e.pii_fields)

unfoldable pub drop_shadow_copy_if_exists : CopyEnv → PiiRegistryEntry → Calls
drop_shadow_copy_if_exists env e =
    if is_bigquery e.system
    then elim (parse_big_query_resource_id e.resource_id) [
      | err m ↦ (err m, [])
      | ok t ↦
          let s = delete_table (suffixed t "_deidentified") in
          (outcome_of 404 (env.answer s), s ∷ [])
    ]
    else (ok tt, [])

abbrev pub require {ℓ} : {A : Type ℓ} → Option A → String → Result String A
require none m = err m
require (some a) m = ok a

abbrev tenant_filter : Option String → String → List String
tenant_filter none literal = []
tenant_filter (some c) literal = ("WHERE s." +++ c +++ " = '" +++ literal +++ "'") ∷ []

abbrev shadow_sql :
    TableRef → TableRef → String → String → Option String → String → List String → String
shadow_sql vault t decrypt_ref user_column tenant_column literal fields = join "\n" (
    ("WITH decrypted_pii AS (")
    ∷ "  SELECT"
    ∷ "    user_id,"
    ∷ ("    " +++ join ",\n    " (build_pii_vault_pivot_columns fields decrypt_ref))
    ∷ ("  FROM " +++ table_name vault "")
    ∷ ("  WHERE tenant_id = '" +++ literal +++ "'")
    ∷ "  GROUP BY user_id"
    ∷ ")"
    ∷ ("SELECT s.* EXCEPT ("
        +++ join ", " fields
        +++ "), "
        +++ join ", " (map (λ f. "d." +++ f) fields))
    ∷ ("FROM " +++ table_name t "" +++ " s")
    ∷ ("LEFT JOIN decrypted_pii d ON s." +++ user_column +++ " = d.user_id")
    ∷ tenant_filter tenant_column literal)

-- `ensureShadowCopy`, up to the calls.
unfoldable pub shadow_view : CopyEnv → PiiRegistryEntry → Result String (TableRef × String)
shadow_view env e = and_then (require env.pii_vault "SHADOW_COPY requires decrypted views") λ vault.
    and_then
      (require (or_text env.batch_decrypt_function_ref none) "SHADOW_COPY requires decrypted views")
      λ decrypt_ref. and_then (require_bigquery e) λ _. and_then (require_user_column e) λ column.
        and_then (require (or_text e.tenant_id none) "Resource has no tenantId") λ tenant.
          let fields = encrypted_fields_of e in
          and_then (require_fields fields) λ _.
            and_then (assert_safe_identifiers (column ∷ present e.tenant_id_column ++ fields)) λ _.
              and_then (parse_big_query_resource_id e.resource_id) λ t. ok (
                suffixed t "_deidentified",
                shadow_sql vault t decrypt_ref column (or_text e.tenant_id_column none)
                    (escape_sql_string_literal tenant) fields,
              )

unfoldable pub ensure_shadow_copy : CopyEnv → PiiRegistryEntry → Calls
ensure_shadow_copy env e =
    if has_source_redaction_strategy e SourceRedactionStrategy.shadow_copy
    then elim (shadow_view env e) [
      | err m ↦ (err m, [])
      | ok (view_id, sql) ↦ drop_shadow_copy_if_exists env e and call env (create_view view_id sql)
    ]
    else drop_shadow_copy_if_exists env e

-- The three statements of an encrypted copy, and its view.
pub record EncryptedCopy : Type 0 where
  pub create_table_sql : String
  pub alter_table_sql : String
  pub dedup_view_sql : String
  pub view_id : TableRef

abbrev copy_of : TableRef → String → List String → EncryptedCopy
copy_of t column fields =
    let raw = table_name t "_encrypted_raw" in
    record {
      create_table_sql = join "\n" (
          ("CREATE TABLE IF NOT EXISTS " +++ raw +++ " AS")
          ∷ "SELECT"
          ∷ ("    s.* EXCEPT (" +++ join ", " fields +++ "),")
          ∷ ("    " +++ join ",\n    " (map (λ f. "CAST(NULL AS STRING) AS " +++ f) fields) +++ ",")
          ∷ "    CAST(NULL AS TIMESTAMP) AS synced_at"
          ∷ ("FROM " +++ table_name t "" +++ " s")
          ∷ "WHERE FALSE"
          ∷ []);
      alter_table_sql =
          "ALTER TABLE "
          +++ raw
          +++ "\n  "
          +++ join ",\n  " (map (λ f. "ADD COLUMN IF NOT EXISTS " +++ f +++ " STRING") fields);
      dedup_view_sql =
          "SELECT * FROM " +++ raw +++ "\nQUALIFY ROW_NUMBER() OVER (PARTITION BY " +++ column
          +++ " ORDER BY synced_at DESC) = 1";
      view_id = suffixed t "_encrypted";
    }

-- `ensureEncryptedCopyTable`, up to the calls.
unfoldable pub encrypted_copy : PiiRegistryEntry → Result String EncryptedCopy
encrypted_copy e = and_then (require_bigquery e) λ _. and_then (require_user_column e) λ column.
    let fields = encrypted_fields_of e in
    and_then (require_fields fields) λ _.
      and_then (assert_safe_identifiers (column ∷ present e.tenant_id_column ++ fields))
        λ _. and_then (parse_big_query_resource_id e.resource_id) λ t. ok (copy_of t column fields)

-- A view that is there already (409) is replaced by a statement.
abbrev ensure_view : CopyEnv → EncryptedCopy → Calls
ensure_view env c =
    let s = create_view c.view_id c.dedup_view_sql in
    elim (env.answer s) [
      | none ↦ (ok tt, s ∷ [])
      | some e ↦
          if nat_beq e.code 409
          then (ok tt, s ∷ [])
            and call env (
                query (
                  "CREATE OR REPLACE VIEW "
                  +++ table_name c.view_id ""
                  +++ " AS\n"
                  +++ c.dedup_view_sql))
          else (err e.message, s ∷ [])
    ]

unfoldable pub ensure_encrypted_copy_table : CopyEnv → PiiRegistryEntry → Calls
ensure_encrypted_copy_table env e =
    if has_source_redaction_strategy e SourceRedactionStrategy.encrypted_copy
    then elim (encrypted_copy e) [
      | err m ↦ (err m, [])
      | ok c ↦
          call env (query c.create_table_sql)
          and (call env (query c.alter_table_sql) and ensure_view env c)
    ]
    else (ok tt, [])
