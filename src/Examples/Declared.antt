-- ===== src/Examples/Declared.antt =====
-- The theorems on declaration forms, their policy and their coverage, at sample resources.
use chameleon_vault.Prelude.{◌≡◌, ◌↔◌, refl, false, none, some, List, [], ◌∷◌, is_some}
use chameleon_vault.Declarations.Types.{
  PiiSystem, PiiClassification, PiiHandling, SourceRedactionStrategy, PiiRegistryEntry,
}
use chameleon_vault.Declarations.Forms.Input.{
  absent, given, PiiRegistryDeclarationInput, array, is_non_empty_string, matches_uri, has_no_space,
}
use chameleon_vault.Declarations.Forms.Errors.{form_errors, array_errors, field_errors}
use chameleon_vault.Declarations.Forms.Build.{build_manual_entry, made_entry, fields_of}
use chameleon_vault.Declarations.Forms.Accepted.{
  IsDeclared, is_empty, build-answers, build-IsDeclared,
}
use chameleon_vault.Declarations.Policy.{evaluate_entry}
use chameleon_vault.Coverage.Items.{
  CoverageItem, protected, partial, exposed, classify_entry, not_crypto_shred, undeclared,
}
use chameleon_vault.Coverage.Doubles.{nearest, lift_scale}
use chameleon_vault.Coverage.Report.{score_of}
use chameleon_vault.Coverage.Protected.{IsProtected, protected_iff-IsProtected}
use chameleon_vault.Examples.Data.{orders}

abbrev pub form : PiiRegistryDeclarationInput
form = record {
  resource_id = "bigquery:acme.shop.orders";
  system = given PiiSystem.bigquery;
  resource_layer = absent;
  visibility = absent;
  tenant_id_column = some "tenant_id";
  user_id_column = some "user_id";
  pubsub_allowed_caller = none;
  user_id_field_path = none;
  updated_at_column = none;
  pii_fields = some (
      record {
        name = "email";
        classification = given PiiClassification.direct_identifier;
        handling = given PiiHandling.encrypt;
        required_in_mart = none;
      }
      ∷ []);
  deletion_strategy = absent;
  source_redaction_strategy = absent;
  source_redaction_strategies = array (given SourceRedactionStrategy.redact_in_place ∷ []);
  ghost_data_scan = none;
  status = absent;
  notes = none;
}

build-answers_example :
    is_some (build_manual_entry form "acme" 7 none (some "ana@acme.test")).entry
    ≡ is_empty (build_manual_entry form "acme" 7 none (some "ana@acme.test")).errors
build-answers_example = build-answers form "acme" 7 none (some "ana@acme.test")

abbrev declared : PiiRegistryEntry
declared = made_entry form "acme" 7 none none PiiSystem.bigquery (
    record {
      name = "email";
      classification = PiiClassification.direct_identifier;
      handling = PiiHandling.encrypt;
      required_in_mart = false;
    }
    ∷ [])

build-IsDeclared_example : IsDeclared "acme" declared
unfolding build_manual_entry form_errors array_errors field_errors fields_of is_non_empty_string
    matches_uri has_no_space
build-IsDeclared_example = build-IsDeclared form "acme" 7 none none declared refl

abbrev items : List CoverageItem
items =
    record { resource_id = "bigquery:a"; state = protected; weight = 6; reasons = [] }
    ∷ record { resource_id = "bigquery:b"; state = exposed; weight = 2; reasons = undeclared ∷ [] }
    ∷ record { resource_id = "log:c"; state = partial; weight = 4; reasons = not_crypto_shred ∷ [] }
    ∷ []

-- 23 of 40 are 57.5 in a hundred, and 57.49999999999999 in doubles.
score_23_of_40 :
    score_of (record { protected_sum = 23; partial_sum = 0; exposed_sum = 17; total = 40 }) ≡ 57
unfolding score_of nearest lift_scale
score_23_of_40 = refl

protected_iff-IsProtected_example :
    ((classify_entry orders (evaluate_entry orders).status).0 ≡ protected) ↔ IsProtected orders
protected_iff-IsProtected_example = protected_iff-IsProtected orders
