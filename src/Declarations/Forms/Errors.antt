-- ===== src/Declarations/Forms/Errors.antt =====
-- `buildManualEntry`: the errors of a form, one constructor for each message, in their order.
use chameleon_vault.Prelude.{
  ℕ, suc, String, Bool, true, false, ◌&&◌, ◌||◌, not, Option, none, some, List, [], ◌∷◌, ◌++◌, ◌==◌,
  if◌then◌else◌,
}
use chameleon_vault.Declarations.Types.{
  PiiSystem, snowflake, pubsub, SourceRedactionStrategy, no_redaction,
}
use chameleon_vault.Declarations.Forms.Input.{
  Given, absent, unknown, given, PiiFieldDeclarationInput, GhostDataScanInput, StrategiesInput,
  not_sent, no_array, array, PiiRegistryDeclarationInput, is_non_empty_string, is_non_empty,
  matches_uri,
}

pub data FormError : Type 0 where
  tenant_required : FormError
  resource_required : FormError
  resource_not_uri : FormError
  bad_system : FormError
  bad_layer : FormError
  bad_visibility : FormError
  bad_deletion_strategy : FormError
  bad_redaction_strategy : FormError
  strategies_not_array : FormError
  bad_array_strategy : ℕ → FormError
  user_column_required : FormError
  same_columns : FormError
  caller_required : FormError
  path_required : FormError
  bad_status : FormError
  fields_required : FormError
  field_name_required : ℕ → FormError
  bad_classification : ℕ → FormError
  bad_handling : ℕ → FormError
  bad_scan_mode : FormError

abbrev pub unless : Bool → FormError → List FormError
unless true e = []
unless false e = e ∷ []

abbrev pub is_given : {A : Type 0} → Given A → Bool
is_given absent = false
is_given unknown = false
is_given (given a) = true

abbrev pub is_allowed : {A : Type 0} → Given A → Bool
is_allowed absent = true
is_allowed unknown = false
is_allowed (given a) = true

-- `SYSTEMS.includes`: SYSTEMS has all of `PiiSystem` but `snowflake`.
abbrev pub is_declarable : Given PiiSystem → Bool
is_declarable (given snowflake) = false
is_declarable s = is_given s

abbrev pub is_pubsub : Given PiiSystem → Bool
is_pubsub (given pubsub) = true
is_pubsub s = false

abbrev pub is_array_strategy : Given SourceRedactionStrategy → Bool
is_array_strategy (given no_redaction) = false
is_array_strategy s = is_given s

abbrev pub resource_errors : String → List FormError
resource_errors s =
    if is_non_empty_string s
    then unless (matches_uri false s) resource_not_uri
    else resource_required ∷ []

unfoldable pub array_errors : ℕ → List (Given SourceRedactionStrategy) → List FormError
array_errors i [] = []
array_errors i (s ∷ ss) =
    unless (is_array_strategy s) (bad_array_strategy i) ++ array_errors (suc i) ss

abbrev pub strategies_errors : StrategiesInput → List FormError
strategies_errors not_sent = []
strategies_errors no_array = strategies_not_array ∷ []
strategies_errors (array ss) = array_errors 0 ss

-- Whether `resolveSourceRedactionStrategies` of the form has a member. What is no array has no length.
abbrev pub requests_redaction : Given SourceRedactionStrategy → StrategiesInput → Bool
requests_redaction legacy (array []) = false
requests_redaction legacy (array (s ∷ ss)) = true
requests_redaction legacy no_array = false
requests_redaction absent not_sent = false
requests_redaction (given no_redaction) not_sent = false
requests_redaction legacy not_sent = true

-- A form that requests a redaction names the user's column.
abbrev pub is_scoped : PiiRegistryDeclarationInput → Bool
is_scoped i =
    not (requests_redaction i.source_redaction_strategy i.source_redaction_strategies)
    || is_non_empty i.user_id_column

abbrev pub same_column : Option String → Option String → Bool
same_column none b = false
same_column (some a) none = false
same_column (some a) (some b) = is_non_empty_string a && (is_non_empty_string b && a == b)

abbrev pubsub_errors : Bool → PiiRegistryDeclarationInput → List FormError
pubsub_errors false i = []
pubsub_errors true i =
    unless (is_non_empty i.pubsub_allowed_caller) caller_required
    ++ unless (is_non_empty i.user_id_field_path) path_required

unfoldable pub field_errors : ℕ → List PiiFieldDeclarationInput → List FormError
field_errors i [] = []
field_errors i (f ∷ fs) =
    unless (is_non_empty_string f.name) (field_name_required i)
    ++ (unless (is_given f.classification) (bad_classification i)
        ++ (unless (is_given f.handling) (bad_handling i) ++ field_errors (suc i) fs))

abbrev pub fields_errors : Option (List PiiFieldDeclarationInput) → List FormError
fields_errors none = fields_required ∷ []
fields_errors (some []) = fields_required ∷ []
fields_errors (some (f ∷ fs)) = field_errors 0 (f ∷ fs)

abbrev scan_errors : Option GhostDataScanInput → List FormError
scan_errors none = []
scan_errors (some g) = unless (is_allowed g.scan_mode) bad_scan_mode

abbrev pub all_of : List (List FormError) → List FormError
all_of [] = []
all_of (es ∷ ess) = es ++ all_of ess

-- What the checks of `buildManualEntry` push, first to last.
abbrev pub error_groups : PiiRegistryDeclarationInput → String → List (List FormError)
error_groups i tenant =
    unless (is_non_empty_string tenant) tenant_required
    ∷ resource_errors i.resource_id
    ∷ unless (is_declarable i.system) bad_system
    ∷ unless (is_allowed i.resource_layer) bad_layer
    ∷ unless (is_allowed i.visibility) bad_visibility
    ∷ unless (is_allowed i.deletion_strategy) bad_deletion_strategy
    ∷ unless (is_allowed i.source_redaction_strategy) bad_redaction_strategy
    ∷ strategies_errors i.source_redaction_strategies
    ∷ unless (is_scoped i) user_column_required
    ∷ unless (not (same_column i.user_id_column i.tenant_id_column)) same_columns
    ∷ pubsub_errors (is_pubsub i.system) i
    ∷ unless (is_allowed i.status) bad_status
    ∷ fields_errors i.pii_fields
    ∷ scan_errors i.ghost_data_scan
    ∷ []

unfoldable pub form_errors : PiiRegistryDeclarationInput → String → List FormError
form_errors i tenant = all_of (error_groups i tenant)
