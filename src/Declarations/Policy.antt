-- ===== src/Declarations/Policy.antt =====
-- services/pii-registry-service.ts, `evaluateEntry` and `evaluateAll`: the policy of a declared resource.
use chameleon_vault.Prelude.{
  ℕ, String, Bool, true, false, ◌&&◌, ◌||◌, not, Option, none, some, List, [], ◌∷◌, ◌++◌, map, any,
  is_some, if◌then◌else◌,
}
use chameleon_vault.Prelude.Texts.{codes, starts_with, contains, after_last}
use chameleon_vault.Keys.Registry.{or_text}
use chameleon_vault.Declarations.Types.{
  PiiSystem, bigquery, PiiClassification, direct_identifier, PiiHandling, DeletionStrategy,
  crypto_shred, PiiFieldPolicy, PiiRegistryEntry,
}
use chameleon_vault.Declarations.Registry.{Declarations, Filters, list_entries}

pub data IssueCode : Type 0 where
  missing_tenant_scope : IssueCode
  missing_user_scope : IssueCode
  direct_identifier_in_mart : IssueCode
  manual_review_required : IssueCode
  ghost_scan_disabled : IssueCode

pub data Severity : Type 0 where
  info : Severity
  warning : Severity
  error : Severity

pub record RegistryPolicyIssue : Type 0 where
  pub issue_code : IssueCode
  pub severity : Severity
  pub resource_id : String
  pub field : Option String

pub data PolicyStatus : Type 0 where
  pass : PolicyStatus
  warn : PolicyStatus
  fail : PolicyStatus

pub record RegistryPolicyEvaluation : Type 0 where
  pub resource_id : String
  pub status : PolicyStatus
  pub issues : List RegistryPolicyIssue

abbrev pub is_bigquery : PiiSystem → Bool
is_bigquery bigquery = true
is_bigquery _ = false

abbrev pub is_crypto_shred : DeletionStrategy → Bool
is_crypto_shred crypto_shred = true
is_crypto_shred _ = false

abbrev pub is_manual_review : DeletionStrategy → Bool
is_manual_review DeletionStrategy.manual_review = true
is_manual_review _ = false

abbrev pub is_direct : PiiClassification → Bool
is_direct direct_identifier = true
is_direct _ = false

abbrev pub is_aggregate_only : PiiHandling → Bool
is_aggregate_only PiiHandling.allow_aggregate_only = true
is_aggregate_only _ = false

abbrev pub needs_review : PiiHandling → Bool
needs_review PiiHandling.manual_review = true
needs_review _ = false

-- A column that is set, and not to an empty text.
abbrev pub has_text : Option String → Bool
has_text o = is_some (or_text o none)

abbrev or_whole : List ℕ → List ℕ → List ℕ
or_whole [] whole = whole
or_whole (c ∷ s) whole = c ∷ s

abbrev resource_name : List ℕ → List ℕ
resource_name id = or_whole (after_last b':' id id) id

abbrev names_mart : List ℕ → Bool
names_mart name = contains (codes ".mart_") name || starts_with (codes "mart_") name

unfoldable pub is_mart : PiiRegistryEntry → Bool
is_mart e = names_mart (resource_name (codes e.resource_id))

abbrev pub when : Bool → RegistryPolicyIssue → List RegistryPolicyIssue
when true i = i ∷ []
when false i = []

abbrev pub issue : PiiRegistryEntry → IssueCode → Severity → Option String → RegistryPolicyIssue
issue e c s f = record { issue_code = c; severity = s; resource_id = e.resource_id; field = f }

unfoldable pub evaluate_field : PiiRegistryEntry → PiiFieldPolicy → Bool → List RegistryPolicyIssue
evaluate_field e f mart =
    when (mart && (is_direct f.classification && not (is_aggregate_only f.handling)))
      (issue e direct_identifier_in_mart error (some f.name))
    ++ when (needs_review f.handling) (issue e manual_review_required warning (some f.name))

unfoldable pub evaluate_fields :
    PiiRegistryEntry → List PiiFieldPolicy → Bool → List RegistryPolicyIssue
evaluate_fields e [] mart = []
evaluate_fields e (f ∷ fs) mart = evaluate_field e f mart ++ evaluate_fields e fs mart

unfoldable pub issues_of : PiiRegistryEntry → List RegistryPolicyIssue
issues_of e =
    when (is_bigquery e.system && not (has_text e.tenant_id_column))
      (issue e missing_tenant_scope error none)
    ++ (when (is_crypto_shred e.deletion_strategy && not (has_text e.user_id_column))
          (issue e missing_user_scope error none)
        ++ (when (is_manual_review e.deletion_strategy)
              (issue e manual_review_required warning none)
            ++ (evaluate_fields e e.pii_fields (is_mart e)
                ++ when (not e.ghost_data_scan.enabled) (issue e ghost_scan_disabled info none))))

abbrev pub is_error : Severity → Bool
is_error error = true
is_error _ = false

abbrev pub is_warning : Severity → Bool
is_warning warning = true
is_warning _ = false

abbrev pub status_of : List RegistryPolicyIssue → PolicyStatus
status_of is =
    if any (λ i. is_error i.severity) is
    then fail
    else (if any (λ i. is_warning i.severity) is then warn else pass)

unfoldable pub evaluate_entry : PiiRegistryEntry → RegistryPolicyEvaluation
unfolding issues_of
evaluate_entry e = record {
  resource_id = e.resource_id;
  status = status_of (issues_of e);
  issues = issues_of e;
}

abbrev for_tenant : Option String → Filters
for_tenant t = record {
  tenant_id = t;
  system = none;
  owner_connector = none;
  scan_enabled = none;
  actor_email = none;
}

unfoldable pub evaluate_all : Option String → Declarations → List RegistryPolicyEvaluation
evaluate_all tenant d = map evaluate_entry (list_entries (for_tenant tenant) d)
