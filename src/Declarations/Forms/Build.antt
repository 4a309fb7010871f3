-- ===== src/Declarations/Forms/Build.antt =====
-- `buildManualEntry`: the entry of a form that has no errors.
use chameleon_vault.Prelude.{
  ℕ, ◌-◌, ◌%◌, String, Bool, true, false, Option, none, some, List, [], ◌∷◌, or_else, or_default,
}
use chameleon_vault.Declarations.Types.{
  PiiSystem, PiiClassification, PiiHandling, PiiFieldPolicy, GhostDataScanPolicy, PiiRegistryEntry,
  DeletionStrategy, SourceRedactionStrategy, no_redaction, customer_facing, pending_review, sampled,
  manual_owner_connector,
}
use chameleon_vault.Declarations.Strategies.{resolve_source_redaction_strategies}
use chameleon_vault.Declarations.Forms.Input.{
  Given, absent, unknown, given, PiiFieldDeclarationInput, GhostDataScanInput, StrategiesInput,
  not_sent, no_array, array, PiiRegistryDeclarationInput,
}
use chameleon_vault.Declarations.Forms.Errors.{FormError, form_errors}

abbrev pub member : {A : Type 0} → Given A → Option A
member absent = none
member unknown = none
member (given a) = some a

-- The fields of the form, if each has its members.
abbrev with_field :
    Option PiiFieldPolicy → Option (List PiiFieldPolicy) → Option (List PiiFieldPolicy)
with_field none ps = none
with_field (some p) none = none
with_field (some p) (some ps) = some (p ∷ ps)

abbrev policy_of :
    String → Option Bool → Option PiiClassification → Option PiiHandling → Option PiiFieldPolicy
policy_of name required none handling = none
policy_of name required (some c) none = none
policy_of name required (some c) (some h) = some (record {
  name = name;
  classification = c;
  handling = h;
  required_in_mart = or_default required false;
})

unfoldable pub fields_of : List PiiFieldDeclarationInput → Option (List PiiFieldPolicy)
fields_of [] = some []
fields_of (f ∷ fs) =
    with_field (policy_of f.name f.required_in_mart (member f.classification) (member f.handling))
      (fields_of fs)

abbrev default_patterns : List String
default_patterns = "EMAIL" ∷ "PHONE" ∷ "NAME" ∷ []

abbrev scan_of : Option GhostDataScanInput → GhostDataScanPolicy
scan_of none = record { enabled = true; scan_mode = sampled; patterns = default_patterns }
scan_of (some g) = record {
  enabled = or_default g.enabled true;
  scan_mode = or_default (member g.scan_mode) sampled;
  patterns = or_default g.patterns default_patterns;
}

abbrev pub members : List (Given SourceRedactionStrategy) → List SourceRedactionStrategy
members [] = []
members (given s ∷ ss) = s ∷ members ss
members (absent ∷ ss) = members ss
members (unknown ∷ ss) = members ss

abbrev pub strategies_of : StrategiesInput → Option (List SourceRedactionStrategy)
strategies_of not_sent = none
strategies_of no_array = none
strategies_of (array ss) = some (members ss)

-- `now.toISOString().slice(0, 10)`
abbrev day_of : ℕ → ℕ
day_of now = now - now % 86400000

abbrev before : {A : Type 0} → (PiiRegistryEntry → Option A) → Option PiiRegistryEntry → Option A
before f none = none
before f (some e) = f e

abbrev pub made_entry :
    PiiRegistryDeclarationInput
    → String
    → ℕ
    → Option PiiRegistryEntry
    → Option String
    → PiiSystem
    → List PiiFieldPolicy
    → PiiRegistryEntry
made_entry i tenant now existing actor system fields = record {
  registry_version = day_of now;
  resource_id = i.resource_id;
  system = system;
  resource_layer = member i.resource_layer;
  visibility = some (or_default (member i.visibility) customer_facing);
  tenant_id_column = i.tenant_id_column;
  user_id_column = i.user_id_column;
  pubsub_allowed_caller = i.pubsub_allowed_caller;
  user_id_field_path = i.user_id_field_path;
  updated_at_column = i.updated_at_column;
  last_synced_at = none;
  last_sync_attempt_at = none;
  pii_fields = fields;
  owner_connector = manual_owner_connector;
  lineage_destination = i.resource_id;
  deletion_strategy = or_default (member i.deletion_strategy) DeletionStrategy.crypto_shred;
  source_redaction_strategy = some (or_default (member i.source_redaction_strategy) no_redaction);
  source_redaction_strategies = some (
      resolve_source_redaction_strategies (member i.source_redaction_strategy)
        (strategies_of i.source_redaction_strategies));
  ghost_data_scan = scan_of i.ghost_data_scan;
  notes = i.notes;
  tenant_id = some tenant;
  status = some (or_default (member i.status) pending_review);
  created_at = some (or_default (before (λ e. e.created_at) existing) now);
  updated_at = some now;
  declared_by = or_else (before (λ e. e.declared_by) existing) actor;
  last_modified_by = actor;
}

abbrev pub entry_with :
    PiiRegistryDeclarationInput
    → String
    → ℕ
    → Option PiiRegistryEntry
    → Option String
    → Option PiiSystem
    → Option (List PiiFieldPolicy)
    → Option PiiRegistryEntry
entry_with i tenant now existing actor none fields = none
entry_with i tenant now existing actor (some system) none = none
entry_with i tenant now existing actor (some system) (some fields) =
    some (made_entry i tenant now existing actor system fields)

pub record ValidationResult : Type 0 where
  pub entry : Option PiiRegistryEntry
  pub errors : List FormError

abbrev pub fields_given : Option (List PiiFieldDeclarationInput) → Option (List PiiFieldPolicy)
fields_given none = none
fields_given (some fs) = fields_of fs

abbrev pub judge : Option PiiRegistryEntry → List FormError → ValidationResult
judge e [] = record { entry = e; errors = [] }
judge e (x ∷ xs) = record { entry = none; errors = x ∷ xs }

-- `now` is the reading of the clock, `actor` the identity that made the call.
unfoldable pub build_manual_entry :
    PiiRegistryDeclarationInput
    → String
    → ℕ
    → Option PiiRegistryEntry
    → Option String
    → ValidationResult
build_manual_entry i tenant now existing actor =
    judge (entry_with i tenant now existing actor (member i.system) (fields_given i.pii_fields))
      (form_errors i tenant)
