-- ===== src/Coverage/Protected.antt =====
-- What PROTECTED means: the policy of the registry and the classification together.
use chameleon_vault.Prelude.{
  ◌≡◌, refl, ◌∙◌, sym, ◌↔◌, inl, inr, Bool, true, false, ◌&&◌, ◌||◌, not, List, [], ◌∷◌, ◌++◌,
  arith, any, all, Bool-cases,
}
use chameleon_vault.Declarations.Types.{PiiFieldPolicy, PiiRegistryEntry}
use chameleon_vault.Declarations.Policy.{
  PolicyStatus, pass, warn, fail, RegistryPolicyIssue, is_bigquery, is_crypto_shred,
  is_manual_review, is_direct, has_text, is_mart, when, evaluate_field, evaluate_fields, issues_of,
  is_error, is_warning, status_of, evaluate_entry,
}
use chameleon_vault.Coverage.Items.{
  CoverageState, protected, partial, exposed, Reason, policy_warns, field_is_shred_safe,
  is_nonempty, unless, weaknesses, graded, classify_entry,
}

-- The full guarantee: the user is linked to a key, every field is bound to that key or a surrogate, and
-- neither the warehouse's tenants nor a mart's readers are left unguarded.
pub record IsProtected (e : PiiRegistryEntry) : Type 0 where
  pub some_fields : is_nonempty e.pii_fields ≡ true
  pub safe : all field_is_shred_safe e.pii_fields ≡ true
  pub shredded : is_crypto_shred e.deletion_strategy ≡ true
  pub linked : has_text e.user_id_column ≡ true
  pub tenant_scoped : (is_bigquery e.system && not (has_text e.tenant_id_column)) ≡ false
  pub no_direct : (is_mart e && any (λ f. is_direct f.classification) e.pii_fields) ≡ false

both : (a b : Bool) → (a && b) ≡ true → (a ≡ true) × (b ≡ true)
both a b h = ground arith

any-append :
    {A : Type 0} (p : A → Bool) (xs ys : List A) → any p (xs ++ ys) ≡ (any p xs || any p ys)
any-append p [] ys = refl
any-append p (x ∷ xs) ys = ground (arith, any-append p xs ys)

abbrev has_error : List RegistryPolicyIssue → Bool
has_error is = any (λ i. is_error i.severity) is

abbrev has_warning : List RegistryPolicyIssue → Bool
has_warning is = any (λ i. is_warning i.severity) is

-- A field that is bound to a key has no warning, and an error just where it is direct in a mart.
field_issues :
    (e : PiiRegistryEntry) (f : PiiFieldPolicy) (mart : Bool)
    → field_is_shred_safe f ≡ true
    → (has_error (evaluate_field e f mart) ≡ (mart && is_direct f.classification))
      × (has_warning (evaluate_field e f mart) ≡ false)
unfolding evaluate_field field_is_shred_safe
field_issues e f mart h = ground arith

fields_issues :
    (e : PiiRegistryEntry) (fs : List PiiFieldPolicy) (mart : Bool)
    → all field_is_shred_safe fs ≡ true
    → (has_error (evaluate_fields e fs mart) ≡ (mart && any (λ f. is_direct f.classification) fs))
      × (has_warning (evaluate_fields e fs mart) ≡ false)
unfolding evaluate_fields
fields_issues e [] mart h = ground arith
fields_issues e (f ∷ fs) mart h =
    let (first_safe, rest_safe) = both (field_is_shred_safe f) (all field_is_shred_safe fs) h in
    let (an_error, a_warning) = field_issues e f mart first_safe in
    let (errors, warnings) = fields_issues e fs mart rest_safe in
    (
      any-append (λ i. is_error i.severity) (evaluate_field e f mart) _
          ∙ ground (arith, an_error, errors),
      any-append (λ i. is_warning i.severity) (evaluate_field e f mart) _
          ∙ ground (arith, a_warning, warnings),
    )

-- What a check adds to the errors and the warnings.
error_when :
    (b : Bool) (i : RegistryPolicyIssue) → has_error (when b i) ≡ (b && is_error i.severity)
error_when true i = ground arith
error_when false i = refl

warning_when :
    (b : Bool) (i : RegistryPolicyIssue) → has_warning (when b i) ≡ (b && is_warning i.severity)
warning_when true i = ground arith
warning_when false i = refl

tidy_errors : (a b c : Bool) → ((a && true) || (b || (c && false))) ≡ (a || b)
tidy_errors a b c = ground arith

tidy_warnings : (a c : Bool) → ((a && false) || (c && false)) ≡ false
tidy_warnings a c = ground arith

-- An entry with a key-bound set of fields that is shredded and linked passes the policy just when its
-- tenants and its mart are guarded.
issues-guarded :
    (e : PiiRegistryEntry)
    → all field_is_shred_safe e.pii_fields ≡ true
    → is_crypto_shred e.deletion_strategy ≡ true
    → has_text e.user_id_column ≡ true
    → (has_error (issues_of e) ≡ (
        (is_bigquery e.system && not (has_text e.tenant_id_column))
        || (is_mart e && any (λ f. is_direct f.classification) e.pii_fields)))
      × (has_warning (issues_of e) ≡ false)
unfolding issues_of
issues-guarded e safe shredded linked =
    let (errors, warnings) = fields_issues e e.pii_fields (is_mart e) safe in
    let by_hand : is_manual_review e.deletion_strategy ≡ false = ground arith in
    (
      simp (any-append, error_when, errors, shredded, linked, by_hand)
          (tidy_errors (is_bigquery e.system && not (has_text e.tenant_id_column))
            (is_mart e && any (λ f. is_direct f.classification) e.pii_fields)
            (not e.ghost_data_scan.enabled)),
      simp (any-append, warning_when, warnings, shredded, linked, by_hand)
          (tidy_warnings (is_bigquery e.system && not (has_text e.tenant_id_column))
            (not e.ghost_data_scan.enabled)),
    )

-- What the classification itself asks.
abbrev is_sound : PiiRegistryEntry → Bool
is_sound e =
    (is_nonempty e.pii_fields && all field_is_shred_safe e.pii_fields)
    && (is_crypto_shred e.deletion_strategy && has_text e.user_id_column)

abbrev is_protected : CoverageState → Bool
is_protected protected = true
is_protected _ = false

abbrev passes : PolicyStatus → Bool
passes pass = true
passes _ = false

graded_by :
    (a b c d : Bool) (r s t u : Reason)
    → is_protected (graded (unless a r ++ (unless b s ++ (unless c t ++ unless d u)))).0
      ≡ (a && (b && (c && d)))
graded_by a b c d r s t u = ground arith

classified :
    (e : PiiRegistryEntry) (status : PolicyStatus)
    → is_protected (classify_entry e status).0 ≡ (passes status && is_sound e)
unfolding classify_entry weaknesses
classified e fail = refl
classified e warn =
    graded_by (is_nonempty e.pii_fields && all field_is_shred_safe e.pii_fields)
      (is_crypto_shred e.deletion_strategy) (has_text e.user_id_column) false _ _ _ policy_warns
    ∙ ground arith
classified e pass =
    graded_by (is_nonempty e.pii_fields && all field_is_shred_safe e.pii_fields)
      (is_crypto_shred e.deletion_strategy) (has_text e.user_id_column) true _ _ _ policy_warns
    ∙ ground arith

status_passes :
    (is : List RegistryPolicyIssue)
    → passes (status_of is) ≡ (not (has_error is) && not (has_warning is))
status_passes is = ground arith

abbrev is_guarded : PiiRegistryEntry → Bool
is_guarded e =
    not (is_bigquery e.system && not (has_text e.tenant_id_column))
    && not (is_mart e && any (λ f. is_direct f.classification) e.pii_fields)

protected_test :
    (e : PiiRegistryEntry)
    → is_protected (classify_entry e (evaluate_entry e).status).0 ≡ (is_sound e && is_guarded e)
unfolding evaluate_entry
protected_test e = elim (Bool-cases (is_sound e)) [
  | inr weak ↦ classified e (status_of (issues_of e)) ∙ ground arith
  | inl sound ↦
      let (fields, keyed) = both _ _ sound in
      let (_, safe) = both (is_nonempty e.pii_fields) _ fields in
      let (shredded, linked) = both _ _ keyed in
      let (errors, warnings) = issues-guarded e safe shredded linked in
      classified e (status_of (issues_of e))
      ∙ ground (arith, status_passes (issues_of e), errors, warnings)
]

protected_iff : (s : CoverageState) → (is_protected s ≡ true) ↔ (s ≡ protected)
protected_iff protected = (λ _. refl, λ _. refl)
protected_iff partial = (λ h. cc, λ h. cc)
protected_iff exposed = (λ h. cc, λ h. cc)

-- A declared resource is PROTECTED exactly when it has fields, all bound to the user's key or
-- surrogates, is crypto-shredded, names the user's column, names the tenant's if it is in BigQuery,
-- and has no direct identifier if it is a mart.
pub protected_iff-IsProtected :
    (e : PiiRegistryEntry)
    → ((classify_entry e (evaluate_entry e).status).0 ≡ protected) ↔ IsProtected e
protected_iff-IsProtected e = (to, from)
  where
    to : (classify_entry e (evaluate_entry e).status).0 ≡ protected → IsProtected e
    to h =
        let tested : (is_sound e && is_guarded e) ≡ true =
          sym (protected_test e) ∙ (protected_iff _).1 h in
        let (sound, guarded) = both (is_sound e) (is_guarded e) tested in
        let (fields, keyed) = both _ _ sound in
        let (some_fields, safe) = both (is_nonempty e.pii_fields) _ fields in
        let (shredded, linked) = both _ _ keyed in
        record {
          some_fields = some_fields;
          safe = safe;
          shredded = shredded;
          linked = linked;
          tenant_scoped = ground arith;
          no_direct = ground arith;
        }

    from : IsProtected e → (classify_entry e (evaluate_entry e).status).0 ≡ protected
    from h = (protected_iff _).0 (protected_test e ∙ ground (arith, h.some_fields, h.safe))
