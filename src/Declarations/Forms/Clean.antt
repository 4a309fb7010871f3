-- ===== src/Declarations/Forms/Clean.antt =====
-- What a form has for which `buildManualEntry` collects no error.
use chameleon_vault.Prelude.{
  ℕ, suc, String, ◌≡◌, refl, ap, or_default, ◌≢◌, Bool, true, false, not, some, List, [], ◌∷◌, ◌++◌,
  arith, length, All,
}
use chameleon_vault.Declarations.Types.{
  PiiFieldPolicy, SourceRedactionStrategy, no_redaction, redact_in_place, shadow_copy,
  encrypted_copy,
}
use chameleon_vault.Declarations.Forms.Input.{
  Given, absent, unknown, given, PiiFieldDeclarationInput, PiiRegistryDeclarationInput,
  is_non_empty_string,
}
use chameleon_vault.Declarations.Forms.Errors.{
  FormError, field_name_required, bad_classification, bad_handling, error_groups, form_errors,
  all_of, resource_errors, is_scoped, unless, is_given, is_declarable, array_errors,
  strategies_errors, field_errors, fields_errors, same_column,
}
use chameleon_vault.Declarations.Forms.Build.{fields_of, member, members}

append-empty : {A : Type 0} (xs ys : List A) → xs ++ ys ≡ [] → (xs ≡ []) × (ys ≡ [])
append-empty [] ys h = (refl, h)
append-empty (x ∷ xs) ys h = ground arith

unless-empty : (b : Bool) (e : FormError) → unless b e ≡ [] → b ≡ true
unless-empty true e h = refl
unless-empty false e h = ground arith

given-member : {A : Type 0} (g : Given A) → is_given g ≡ true → (a : A) × (member g ≡ some a)
given-member absent h = cc
given-member unknown h = cc
given-member (given a) h = (a, refl)

pub array-Proper :
    (n : ℕ) (ss : List (Given SourceRedactionStrategy))
    → array_errors n ss ≡ []
    → All (λ s. s ≢ no_redaction) (members ss)
unfolding array_errors
array-Proper n [] h = tt
array-Proper n (given no_redaction ∷ ss) h = ground arith
array-Proper n (absent ∷ ss) h = ground arith
array-Proper n (unknown ∷ ss) h = ground arith
array-Proper n (given redact_in_place ∷ ss) h = (λ e. cc, array-Proper (suc n) ss h)
array-Proper n (given shadow_copy ∷ ss) h = (λ e. cc, array-Proper (suc n) ss h)
array-Proper n (given encrypted_copy ∷ ss) h = (λ e. cc, array-Proper (suc n) ss h)

pub fields-Named :
    (n : ℕ) (fs : List PiiFieldDeclarationInput)
    → field_errors n fs ≡ []
    → (ps : List PiiFieldPolicy) × (fields_of fs ≡ some ps)
      × (length ps ≡ length fs)
      × All (λ p. is_non_empty_string p.name ≡ true) ps
unfolding field_errors fields_of
fields-Named n [] h = ([], refl, refl, tt)
fields-Named n (f ∷ fs) h =
    let (named, later) =
      append-empty (unless (is_non_empty_string f.name) (field_name_required n)) _ h in
    let (classified, after) =
      append-empty (unless (is_given f.classification) (bad_classification n)) _ later in
    let (handled, others) = append-empty (unless (is_given f.handling) (bad_handling n)) _ after in
    let (ps, found, same, all_named) = fields-Named (suc n) fs others in
    let (c, has_class) = given-member f.classification (unless-empty _ _ classified) in
    let (k, has_handling) = given-member f.handling (unless-empty _ _ handled) in
    (
      record {
        name = f.name;
        classification = c;
        handling = k;
        required_in_mart = or_default f.required_in_mart false;
      }
          ∷ ps,
      rw (has_class, has_handling, found) refl,
      ap suc same,
      (unless-empty _ _ named, all_named),
    )

all_of-empty : (ess : List (List FormError)) → all_of ess ≡ [] → All (λ es. es ≡ []) ess
all_of-empty [] h = tt
all_of-empty (es ∷ ess) h =
    let (e, rest) = append-empty es (all_of ess) h in (e, all_of-empty ess rest)

-- What a form without errors has.
pub record IsClean (i : PiiRegistryDeclarationInput) (tenant : String) : Type 0 where
  pub tenant_named : is_non_empty_string tenant ≡ true
  pub resource_clean : resource_errors i.resource_id ≡ []
  pub system_known : is_declarable i.system ≡ true
  pub strategies_clean : strategies_errors i.source_redaction_strategies ≡ []
  pub scoped : is_scoped i ≡ true
  pub apart : not (same_column i.user_id_column i.tenant_id_column) ≡ true
  pub fields_clean : fields_errors i.pii_fields ≡ []

pub form-IsClean :
    (i : PiiRegistryDeclarationInput) (tenant : String)
    → form_errors i tenant ≡ []
    → IsClean i tenant
unfolding form_errors
form-IsClean i tenant h =
    let (
      tenant_ok,
      (
        resource_ok,
        (
          system_ok,
          (_, (_, (_, (_, (strategies_ok, (scope_ok, (apart_ok, (_, (_, (fields_ok, _)))))))))),
        ),
      ),
    ) =
      all_of-empty (error_groups i tenant) h in
    record {
      tenant_named = unless-empty _ _ tenant_ok;
      resource_clean = resource_ok;
      system_known = unless-empty _ _ system_ok;
      strategies_clean = strategies_ok;
      scoped = unless-empty _ _ scope_ok;
      apart = unless-empty _ _ apart_ok;
      fields_clean = fields_ok;
    }
