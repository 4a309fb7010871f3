-- ===== src/Routes/Registry/Upsert.antt =====
-- routes/pii-registry.ts: declaring and changing a resource. The answers of BigQuery are parameters.
use chameleon_vault.Prelude.{
  ℕ, String, Bool, true, false, ◌&&◌, ◌||◌, not, Option, none, some, List, [], ◌∷◌, ◌++◌, map, keep,
  includes, is_some, ok, err, Result, if◌then◌else◌, ◌==◌,
}
use chameleon_vault.Fault.{Fault, immutable_owner, missing_tenant}
use chameleon_vault.Keys.Registry.{or_text}
use chameleon_vault.Declarations.Types.{
  PiiRegistryEntry, SourceRedactionStrategy, redact_in_place, manual_owner_connector,
}
use chameleon_vault.Declarations.Strategies.{resolve_source_redaction_strategies}
use chameleon_vault.Declarations.Registry.{Declarations, get_entry, upsert_entry}
use chameleon_vault.Declarations.Forms.Input.{PiiRegistryDeclarationInput}
use chameleon_vault.Declarations.Forms.Build.{build_manual_entry}
use chameleon_vault.Declarations.Policy.{RegistryPolicyEvaluation, is_bigquery, evaluate_entry}
use chameleon_vault.Coverage.Items.{Finding, is_nonempty}
use chameleon_vault.Redaction.Copies.{
  CopyEnv, Calls, ensure_shadow_copy, ensure_encrypted_copy_table,
}
use chameleon_vault.Routes.Http.{Reply, sent, refused}
use chameleon_vault.Routes.Registry.Callers.{tenant_of, Caller, require_write_auth, gated}

pub data TableType : Type 0 where
  base_table : TableType
  view : TableType
  materialized_view : TableType

pub record RegistryEnv : Type 0 where
  pub now : ℕ
  pub encode : String → String
  -- `decodeURIComponent` of a parameter of the route, which throws on a text that is not an encoding
  pub decode : String → Option String
  pub down : Option Fault
  pub write_token : Option String
  pub table_type : Option (String → Result Fault (Option TableType))
  pub columns : Option (String → Result Fault (List String))
  pub discovery : String → Result Fault (List Finding)
  -- the source redaction service, if it is configured
  pub copies : Option CopyEnv

abbrev is_view : Result Fault (Option TableType) → Bool
is_view (ok (some view)) = true
is_view (ok (some materialized_view)) = true
is_view _ = false

abbrev is_in_place : Option SourceRedactionStrategy → Bool
is_in_place (some redact_in_place) = true
is_in_place _ = false

-- A view that is to be redacted in place: only the legacy field is asked. A failed look-up blocks nothing.
unfoldable pub names_view : RegistryEnv → PiiRegistryEntry → Bool
names_view env e =
    (is_in_place e.source_redaction_strategy && is_bigquery e.system)
    && elim env.table_type [ none ↦ false | some ask ↦ is_view (ask e.resource_id) ]

abbrev optional_name : Option String → List String
optional_name none = []
optional_name (some c) = c ∷ []

unfoldable pub missing_columns : PiiRegistryEntry → List String → List String
missing_columns e real =
    keep (λ c. not (includes c real))
      (optional_name e.user_id_column
        ++ (optional_name e.tenant_id_column ++ map (λ f. f.name) e.pii_fields))

abbrev lacks_column : PiiRegistryEntry → Result Fault (List String) → Bool
lacks_column e (err _) = false
lacks_column e (ok []) = false
lacks_column e (ok (c ∷ cs)) = is_nonempty (missing_columns e (c ∷ cs))

-- A column that a redaction refers to and the table does not have.
unfoldable pub names_missing_column : RegistryEnv → PiiRegistryEntry → Bool
names_missing_column env e =
    (is_nonempty (
        resolve_source_redaction_strategies e.source_redaction_strategy
          e.source_redaction_strategies)
      && is_bigquery e.system)
    && elim env.columns [ none ↦ false | some ask ↦ lacks_column e (ask e.resource_id) ]

pub record Declared : Type 0 where
  pub resource : PiiRegistryEntry
  pub policy : RegistryPolicyEvaluation
  pub shadow_copy_error : Option String
  pub encrypted_copy_error : Option String

-- 409 for a `RegistryMutationError`.
abbrev pub mutation_code : Fault → ℕ
mutation_code immutable_owner = 409
mutation_code missing_tenant = 409
mutation_code _ = 500

abbrev message_of : Result String (Unit {0}) → Option String
message_of (ok u) = none
message_of (err m) = some m

-- `sourceRedactionHook?.method(saved)`, whose failure is reported and nothing else.
abbrev maintained : Option CopyEnv → (CopyEnv → Calls) → Option String
maintained none method = none
maintained (some env) method = message_of (method env).0

abbrev pub saved_reply :
    RegistryEnv
    → Bool
    → Result Fault PiiRegistryEntry × Declarations
    → Reply Declared × Declarations
saved_reply env created (err e, d) = (refused (mutation_code e), d)
saved_reply env created (ok e, d) = (
  sent (if created then 201 else 200) (record {
    resource = e;
    policy = evaluate_entry e;
    shadow_copy_error = maintained env.copies (λ c. ensure_shadow_copy c e);
    encrypted_copy_error = maintained env.copies (λ c. ensure_encrypted_copy_table c e);
  }),
  d,
)

abbrev pub save :
    RegistryEnv → Bool → Option PiiRegistryEntry → Declarations → Reply Declared × Declarations
save env created none d = (refused 400, d)
save env created (some e) d =
    if names_view env e || names_missing_column env e
    then (refused 400, d)
    else saved_reply env created (upsert_entry env.encode env.down e d)

abbrev pub with_path : Option String → PiiRegistryDeclarationInput → PiiRegistryDeclarationInput
with_path none i = i
with_path (some id) i = record i { resource_id = id }

abbrev pub is_platform_managed : Option PiiRegistryEntry → Bool
is_platform_managed none = false
is_platform_managed (some e) = not (e.owner_connector == manual_owner_connector)

abbrev pub found : String → String → Declarations → Option PiiRegistryEntry
found id tenant d = if id == "" then none else get_entry id (some tenant) d

-- `upsert`: POST without and PUT with a resource id in the path.
unfoldable pub upsert :
    RegistryEnv
    → Option String
    → Option String
    → PiiRegistryDeclarationInput
    → Option String
    → Declarations
    → Reply Declared × Declarations
upsert env header analyst body path d =
    let given_path = or_text path none in
    let input = with_path given_path body in
    let existing = found input.resource_id (tenant_of header) d in
    if is_some given_path && is_platform_managed existing
    then (refused 409, d)
    else save env (not (is_some given_path) && not (is_some existing))
        (build_manual_entry input (tenant_of header) env.now existing analyst).entry d

-- The parameter is decoded once more by the handler; if that throws, Fastify answers 500.
unfoldable pub upsert_at :
    RegistryEnv
    → Option String
    → Option String
    → PiiRegistryDeclarationInput
    → Option String
    → Declarations
    → Reply Declared × Declarations
upsert_at env header analyst body none d = upsert env header analyst body none d
upsert_at env header analyst body (some param) d = elim (env.decode param) [
  | none ↦ (refused 500, d)
  | some id ↦ upsert env header analyst body (some id) d
]

-- POST /pii-registry/resources without and PUT /pii-registry/resources/:resourceId with a parameter.
unfoldable pub upsert_route :
    RegistryEnv
    → Caller
    → Option String
    → PiiRegistryDeclarationInput
    → Option String
    → Declarations
    → Reply Declared × Declarations
upsert_route env caller header body param =
    gated (require_write_auth env.write_token caller)
      (upsert_at env header caller.analyst body param)
