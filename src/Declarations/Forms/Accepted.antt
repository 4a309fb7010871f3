-- ===== src/Declarations/Forms/Accepted.antt =====
-- What is known of a declaration that `buildManualEntry` accepts.
use chameleon_vault.Prelude.{
  ℕ, ◌≤◌, String, ◌≡◌, refl, ◌≢◌, ◌⊎◌, inl, inr, Bool, true, false, not, Option, none, some, List,
  [], ◌∷◌, arith, eq_iff, length, All, is_some, Bool-cases,
}
use mathlib.Core.Option.{some-injective, none-ne-some}
use mathlib.Core.Path.{subst}
use chameleon_vault.Declarations.Types.{
  PiiSystem, snowflake, PiiRegistryEntry, PiiFieldPolicy, SourceRedactionStrategy, no_redaction,
  redact_in_place, shadow_copy, encrypted_copy, manual_owner_connector,
}
use chameleon_vault.Declarations.Strategies.{resolve_source_redaction_strategies}
use chameleon_vault.Declarations.Forms.Input.{
  Given, absent, unknown, given, PiiFieldDeclarationInput, StrategiesInput, not_sent, no_array,
  array, PiiRegistryDeclarationInput, is_non_empty_string, is_non_empty,
}
use chameleon_vault.Declarations.Forms.Errors.{
  form_errors, is_declarable, fields_errors, strategies_errors, requests_redaction, same_column,
}
use chameleon_vault.Declarations.Forms.Build.{
  build_manual_entry, made_entry, fields_given, member, strategies_of,
}
use chameleon_vault.Declarations.Forms.Clean.{IsClean, form-IsClean, fields-Named, array-Proper}

List-cases : {A : Type 0} (xs : List A) → (xs ≡ []) ⊎ ((y : A) × (ys : List A) × (xs ≡ y ∷ ys))
List-cases [] = inl refl
List-cases (y ∷ ys) = inr (y, ys, refl)

abbrev pub is_empty : {A : Type 0} → List A → Bool
is_empty [] = true
is_empty (x ∷ xs) = false

abbrev strategies : PiiRegistryEntry → List SourceRedactionStrategy
strategies e =
    resolve_source_redaction_strategies e.source_redaction_strategy e.source_redaction_strategies

-- A stored declaration as the rest of the service relies on it.
pub record IsDeclared (tenant : String) (e : PiiRegistryEntry) : Type 0 where
  pub manual : e.owner_connector ≡ manual_owner_connector
  pub owned : e.tenant_id ≡ some tenant
  pub tenant_named : is_non_empty_string tenant ≡ true
  pub supported : e.system ≢ snowflake
  pub has_fields : 1 ≤ length e.pii_fields
  pub fields_named : All (λ p. is_non_empty_string p.name ≡ true) e.pii_fields
  pub proper : All (λ s. s ≢ no_redaction) (strategies e)
  -- A source redaction has a column to find the user by.
  pub scoped : (strategies e ≡ []) ⊎ (is_non_empty e.user_id_column ≡ true)
  -- The user's column is not the tenant's.
  pub apart : (is_non_empty e.user_id_column ≡ false) ⊎ (e.user_id_column ≢ e.tenant_id_column)

module _ (i : PiiRegistryDeclarationInput) (tenant : String) (clean : IsClean i tenant) where
  given_system : (s : PiiSystem) × (member i.system ≡ some s) × (s ≢ snowflake)
  given_system = of i.system clean.system_known
    where
      of :
          (g : Given PiiSystem)
          → is_declarable g ≡ true
          → (s : PiiSystem) × (member g ≡ some s) × (s ≢ snowflake)
      of absent h = cc
      of unknown h = cc
      of (given s) h = (s, refl, λ e. let h' : false ≡ true = rw e at h in cc)

  given_fields :
      (ps : List PiiFieldPolicy) × (fields_given i.pii_fields ≡ some ps)
      × (1 ≤ length ps)
      × All (λ p. is_non_empty_string p.name ≡ true) ps
  given_fields = of i.pii_fields clean.fields_clean
    where
      of :
          (fs : Option (List PiiFieldDeclarationInput))
          → fields_errors fs ≡ []
          → (ps : List PiiFieldPolicy) × (fields_given fs ≡ some ps)
            × (1 ≤ length ps)
            × All (λ p. is_non_empty_string p.name ≡ true) ps
      of none h = ground arith
      of (some []) h = ground arith
      of (some (f ∷ fs)) h =
          let (ps, found, same, named) = fields-Named 0 (f ∷ fs) h in
          (ps, found, omega (arith, same), named)

  abbrev chosen : List SourceRedactionStrategy
  chosen =
      resolve_source_redaction_strategies (member i.source_redaction_strategy)
        (strategies_of i.source_redaction_strategies)

  given_proper : All (λ s. s ≢ no_redaction) chosen
  unfolding resolve_source_redaction_strategies
  given_proper = of i.source_redaction_strategy i.source_redaction_strategies clean.strategies_clean
    where
      of :
          (legacy : Given SourceRedactionStrategy) (ss : StrategiesInput)
          → strategies_errors ss ≡ []
          → All
              (λ s. s ≢ no_redaction)
              (resolve_source_redaction_strategies (member legacy) (strategies_of ss))
      of legacy (array ss) h = array-Proper 0 ss h
      of legacy no_array h = ground arith
      of absent not_sent h = tt
      of unknown not_sent h = tt
      of (given no_redaction) not_sent h = tt
      of (given redact_in_place) not_sent h = (λ e. cc, tt)
      of (given shadow_copy) not_sent h = (λ e. cc, tt)
      of (given encrypted_copy) not_sent h = (λ e. cc, tt)

  given_scope : (chosen ≡ []) ⊎ (is_non_empty i.user_id_column ≡ true)
  unfolding resolve_source_redaction_strategies
  given_scope =
      elim (Bool-cases
        (requests_redaction i.source_redaction_strategy i.source_redaction_strategies)) [
          | inl asked ↦ inr (rw asked at clean.scoped)
          | inr none_asked ↦ inl (
              of i.source_redaction_strategy i.source_redaction_strategies clean.strategies_clean
                none_asked)
        ]
    where
      of :
          (legacy : Given SourceRedactionStrategy) (ss : StrategiesInput)
          → strategies_errors ss ≡ []
          → requests_redaction legacy ss ≡ false
          → resolve_source_redaction_strategies (member legacy) (strategies_of ss) ≡ []
      of legacy (array []) h k = refl
      of legacy (array (s ∷ ss)) h k = cc
      of legacy no_array h k = ground arith
      of absent not_sent h k = refl
      of unknown not_sent h k = refl
      of (given no_redaction) not_sent h k = refl
      of (given redact_in_place) not_sent h k = cc
      of (given shadow_copy) not_sent h k = cc
      of (given encrypted_copy) not_sent h k = cc

  given_apart : (is_non_empty i.user_id_column ≡ false) ⊎ (i.user_id_column ≢ i.tenant_id_column)
  given_apart = of i.user_id_column i.tenant_id_column clean.apart
    where
      of : (a b : Option String) → not (same_column a b) ≡ true → (is_non_empty a ≡ false) ⊎ (a ≢ b)
      of none b h = inl refl
      of (some a) none h = inr (λ e. cc)
      of (some a) (some b) h = elim (Bool-cases (is_non_empty_string a)) [
        | inr blank ↦ inl blank
        | inl named ↦ inr (λ e. ground (arith, eq_iff a b, some-injective a b e))
      ]

-- `buildManualEntry` answers an entry exactly when it answers no error.
pub build-answers :
    (i : PiiRegistryDeclarationInput) (tenant : String) (now : ℕ)
    (existing : Option PiiRegistryEntry) (actor : Option String)
    → is_some (build_manual_entry i tenant now existing actor).entry
      ≡ is_empty (build_manual_entry i tenant now existing actor).errors
unfolding build_manual_entry
build-answers i tenant now existing actor = elim (List-cases (form_errors i tenant)) [
  | inr (e, es, found) ↦ rw found refl
  | inl clean ↦
      let c = form-IsClean i tenant clean in
      let (s, is_s, _) = given_system i tenant c in
      let (ps, is_ps, _, _) = given_fields i tenant c in rw (clean, is_s, is_ps) refl
]

made-IsDeclared :
    (i : PiiRegistryDeclarationInput) (tenant : String) (now : ℕ)
    (existing : Option PiiRegistryEntry) (actor : Option String) (s : PiiSystem)
    (ps : List PiiFieldPolicy)
    → IsClean i tenant
    → s ≢ snowflake
    → 1 ≤ length ps
    → All (λ p. is_non_empty_string p.name ≡ true) ps
    → IsDeclared tenant (made_entry i tenant now existing actor s ps)
unfolding resolve_source_redaction_strategies
made-IsDeclared i tenant now existing actor s ps c supported has named = record {
  manual = refl;
  owned = refl;
  tenant_named = c.tenant_named;
  supported = supported;
  has_fields = has;
  fields_named = named;
  proper = given_proper i tenant c;
  scoped = given_scope i tenant c;
  apart = given_apart i tenant c;
}

-- A form that `buildManualEntry` accepts becomes a manual entry of the tenant, of a supported system,
-- with named fields, no NONE among its strategies, a user column if there is a strategy, and not the
-- same column for the user and the tenant.
pub build-IsDeclared :
    (i : PiiRegistryDeclarationInput) (tenant : String) (now : ℕ)
    (existing : Option PiiRegistryEntry) (actor : Option String) (e : PiiRegistryEntry)
    → (build_manual_entry i tenant now existing actor).entry ≡ some e
    → IsDeclared tenant e
unfolding build_manual_entry
build-IsDeclared i tenant now existing actor e h = elim (List-cases (form_errors i tenant)) [
  | inr (x, xs, found) ↦ absurd (none-ne-some e (rw found at h))
  | inl clean ↦
      let c = form-IsClean i tenant clean in
      let (s, is_s, supported) = given_system i tenant c in
      let (ps, is_ps, has, named) = given_fields i tenant c in
      let made : some (made_entry i tenant now existing actor s ps) ≡ some e =
        rw (clean, is_s, is_ps) at h in
      subst (IsDeclared tenant) (some-injective _ e made)
        (made-IsDeclared i tenant now existing actor s ps c supported has named)
]
