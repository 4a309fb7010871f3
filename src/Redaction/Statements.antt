-- ===== src/Redaction/Statements.antt =====
-- services/source-redaction-service.ts: the statements of REDACT_IN_PLACE and ENCRYPTED_COPY, and the
-- checks that come before one is made. The messages of the errors are shortened.
use Prim.Native.String
use chameleon_vault.Prelude.{
  String, Bool, true, false, Option, none, some, List, [], ◌∷◌, ◌++◌, map, ok, err, Result,
  and_then, if◌then◌else◌, length, nat_beq,
}
use chameleon_vault.Keys.Registry.{or_text}
use chameleon_vault.Declarations.Types.{PiiRegistryEntry, PiiSystem, PiiFieldPolicy}
use chameleon_vault.Redaction.Identifiers.{
  assert_safe_identifiers, parse_big_query_resource_id, TableRef,
}

-- A query and its parameters.
pub record Statement : Type 0 where
  pub query : String
  pub user_id : String
  pub tenant_id : Option String

infixr 5 ◌+++◌
abbrev pub ◌+++◌ : String → String → String
a +++ b = String.◌++◌ a b

-- `xs.join(separator)`
unfoldable pub join : String → List String → String
join separator [] = ""
join separator (x ∷ []) = x
join separator (x ∷ y ∷ xs) = x +++ separator +++ join separator (y ∷ xs)

abbrev pub names_of : List PiiFieldPolicy → List String
names_of fields = map (λ f. f.name) fields

abbrev pub present : Option String → List String
present none = []
present (some s) = s ∷ []

-- `project.dataset.table` between backquotes
abbrev pub table_name : TableRef → String → String
table_name t suffix =
    "`" +++ t.project_id +++ "." +++ t.dataset_id +++ "." +++ t.table_id +++ suffix +++ "`"

abbrev where_clause : String → Option String → String
where_clause user_id_column tenant_id_column = join " AND " (
    (user_id_column +++ " = @userId")
    ∷ elim tenant_id_column [ none ↦ [] | some c ↦ (c +++ " = @tenantId") ∷ [] ])

abbrev pub scope : Option String → String → Option String
scope none tenant_id = none
scope (some c) tenant_id = some tenant_id

abbrev pub is_bigquery : PiiSystem → Bool
is_bigquery PiiSystem.bigquery = true
is_bigquery _ = false

abbrev pub require_bigquery : PiiRegistryEntry → Result String (Unit {0})
require_bigquery e =
    if is_bigquery e.system then ok tt else err "only implemented for bigquery resources"

-- `if (!resource.userIdColumn) throw`
abbrev pub require_user_column : PiiRegistryEntry → Result String String
require_user_column e = elim (or_text e.user_id_column none) [
  | none ↦ err "Resource has no userIdColumn declared"
  | some c ↦ ok c
]

abbrev pub require_fields : List String → Result String (Unit {0})
require_fields fields =
    if nat_beq (length fields) 0 then err "Resource has no declared piiFields to redact." else ok tt

abbrev pub update_text : TableRef → String → Option String → List String → String
update_text t column tenant_column fields =
    "UPDATE "
    +++ table_name t ""
    +++ " SET "
    +++ join ", " (map (λ f. f +++ " = NULL") fields)
    +++ " WHERE "
    +++ where_clause column tenant_column

-- `redactOne`, up to the query. An empty tenant column counts as missing in the query, not in the check.
unfoldable pub redact_statement : PiiRegistryEntry → String → String → Result String Statement
redact_statement e user_id tenant_id = and_then (require_bigquery e) λ _.
    and_then (require_user_column e) λ column.
      let fields = names_of e.pii_fields in
      and_then (require_fields fields) λ _.
        and_then (assert_safe_identifiers (column ∷ present e.tenant_id_column ++ fields)) λ _.
          and_then (parse_big_query_resource_id e.resource_id) λ t.
            let tenant_column = or_text e.tenant_id_column none in
            ok (record {
              query = update_text t column tenant_column fields;
              user_id = user_id;
              tenant_id = scope tenant_column tenant_id;
            })

-- `deleteFromEncryptedCopyOne`, up to the query
unfoldable pub delete_statement : PiiRegistryEntry → String → String → Result String Statement
delete_statement e user_id tenant_id = and_then (require_bigquery e) λ _.
    and_then (require_user_column e) λ column.
      and_then (assert_safe_identifiers (column ∷ present e.tenant_id_column)) λ _.
        and_then (parse_big_query_resource_id e.resource_id) λ t.
          let tenant_column = or_text e.tenant_id_column none in
          ok (record {
            query =
                "DELETE FROM "
                +++ table_name t "_encrypted_raw"
                +++ " WHERE "
                +++ where_clause column tenant_column;
            user_id = user_id;
            tenant_id = scope tenant_column tenant_id;
          })
