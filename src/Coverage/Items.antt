-- ===== src/Coverage/Items.antt =====
-- services/pii-coverage.ts: the weight and the state of each resource. Weights are counted in halves.
use chameleon_vault.Prelude.{
  ℕ, ◌+◌, max, String, Bool, true, false, ◌&&◌, ◌||◌, not, List, [], ◌∷◌, ◌++◌, map, all, keep,
  includes, if◌then◌else◌,
}
use chameleon_vault.Prelude.Texts.{codes, contains, lower}
use chameleon_vault.Declarations.Types.{
  PiiClassification, direct_identifier, sensitive, contact, quasi_identifier, behavioral,
  system_identifier, PiiHandling, encrypt, tokenize, hash_surrogate, PiiFieldPolicy,
  PiiRegistryEntry,
}
use chameleon_vault.Declarations.Policy.{
  PolicyStatus, pass, warn, fail, has_text, is_crypto_shred, evaluate_entry,
}

pub data CoverageState : Type 0 where
  protected : CoverageState
  partial : CoverageState
  exposed : CoverageState

pub data Reason : Type 0 where
  policy_fails : Reason
  not_key_reversible : List PiiFieldPolicy → Reason
  not_crypto_shred : Reason
  no_user_link : Reason
  policy_warns : Reason
  schema_drift : Reason
  undeclared : Reason

pub record CoverageItem : Type 0 where
  pub resource_id : String
  pub state : CoverageState
  pub weight : ℕ
  pub reasons : List Reason

abbrev pub field_sensitivity : PiiClassification → ℕ
field_sensitivity direct_identifier = 6
field_sensitivity sensitive = 6
field_sensitivity contact = 4
field_sensitivity quasi_identifier = 4
field_sensitivity behavioral = 2
field_sensitivity system_identifier = 1

abbrev pub sum : List ℕ → ℕ
sum [] = 0
sum (x ∷ xs) = x + sum xs

unfoldable pub entry_weight : PiiRegistryEntry → ℕ
entry_weight e = max 1 (sum (map (λ f. field_sensitivity f.classification) e.pii_fields))

-- Whether the name has one of the parts.
abbrev has : List ℕ → List String → Bool
has n [] = false
has n (p ∷ ps) = contains (codes p) n || has n ps

unfoldable pub column_sensitivity : String → ℕ
column_sensitivity name =
    let n = lower (codes name) in
    if has n ("email" ∷ "ssn" ∷ "social" ∷ "dob" ∷ "birth" ∷ "passport" ∷ "tax" ∷ [])
    then 6
    else (if has n
          ("phone" ∷ "mobile" ∷ "name" ∷ "address" ∷ "street" ∷ "city" ∷ "zip" ∷ "postal" ∷ [])
        then 4
        else (if has n ("ip" ∷ "geo" ∷ "device" ∷ "lat" ∷ "lon" ∷ [])
            then 4
            else (if has n ("_id" ∷ "id" ∷ "uuid" ∷ "token" ∷ []) then 1 else 4)))

-- types/lineage.ts, `WarehouseDiscoveryFinding`: the members that are read here.
pub record Finding : Type 0 where
  pub resource_id : String
  pub drifted : Bool
  pub columns : List String

unfoldable pub discovery_weight : Finding → ℕ
discovery_weight f = max 2 (sum (map column_sensitivity f.columns))

abbrev is_key_bound : PiiHandling → Bool
is_key_bound encrypt = true
is_key_bound tokenize = true
is_key_bound _ = false

abbrev is_surrogate : PiiClassification → PiiHandling → Bool
is_surrogate system_identifier hash_surrogate = true
is_surrogate _ _ = false

unfoldable pub field_is_shred_safe : PiiFieldPolicy → Bool
field_is_shred_safe f = is_key_bound f.handling || is_surrogate f.classification f.handling

abbrev pub is_nonempty : {A : Type 0} → List A → Bool
is_nonempty [] = false
is_nonempty (x ∷ xs) = true

abbrev pub unless : Bool → Reason → List Reason
unless true r = []
unless false r = r ∷ []

abbrev pub is_warn : PolicyStatus → Bool
is_warn warn = true
is_warn _ = false

unfoldable pub weaknesses : PiiRegistryEntry → PolicyStatus → List Reason
weaknesses e status =
    unless (is_nonempty e.pii_fields && all field_is_shred_safe e.pii_fields)
      (not_key_reversible (keep (λ f. not (field_is_shred_safe f)) e.pii_fields))
    ++ (unless (is_crypto_shred e.deletion_strategy) not_crypto_shred
        ++ (unless (has_text e.user_id_column) no_user_link
            ++ unless (not (is_warn status)) policy_warns))

abbrev pub graded : List Reason → CoverageState × List Reason
graded [] = (protected, [])
graded (r ∷ rs) = (partial, r ∷ rs)

unfoldable pub classify_entry : PiiRegistryEntry → PolicyStatus → CoverageState × List Reason
unfolding weaknesses
classify_entry e fail = (exposed, policy_fails ∷ [])
classify_entry e pass = graded (weaknesses e pass)
classify_entry e warn = graded (weaknesses e warn)

abbrev pub declared_item : PiiRegistryEntry → CoverageItem
declared_item e =
    let (state, reasons) = classify_entry e (evaluate_entry e).status in
    record {
      resource_id = e.resource_id;
      state = state;
      weight = entry_weight e;
      reasons = reasons;
    }

abbrev finding_item : Finding → CoverageItem
finding_item f = record {
  resource_id = f.resource_id;
  state = exposed;
  weight = discovery_weight f;
  reasons = (if f.drifted then schema_drift else undeclared) ∷ [];
}

-- `evaluate` is `evaluateEntry`, as the route passes it.
unfoldable pub to_coverage_items : List PiiRegistryEntry → List Finding → List CoverageItem
to_coverage_items entries discovery =
    map declared_item entries
    ++ map finding_item
        (keep (λ f. not (includes f.resource_id (map (λ e. e.resource_id) entries))) discovery)
