-- ===== src/Declarations/Forms/Input.antt =====
-- The submitted form, types/pii-registry.ts, and the tests on its texts. A member with a text, not empty, in none
-- of the union's literals is `unknown`.
use Prim.Native.Char.{Char, code}
use chameleon_vault.Prelude.{
  ℕ, String, Bool, true, false, ◌&&◌, ◌||◌, not, Option, none, some, List, nat_beq, leb,
  if◌then◌else◌,
}
use chameleon_vault.Declarations.Types.{
  PiiSystem, PiiResourceLayer, PiiResourceVisibility, PiiClassification, PiiHandling,
  DeletionStrategy, SourceRedactionStrategy, RegistryEntryStatus, ScanMode,
}

-- An optional member of a union.
pub data Given (A : Type 0) : Type 0 where
  absent : Given A
  unknown : Given A
  given : A → Given A

pub record PiiFieldDeclarationInput : Type 0 where
  pub name : String
  pub classification : Given PiiClassification
  pub handling : Given PiiHandling
  pub required_in_mart : Option Bool

pub record GhostDataScanInput : Type 0 where
  pub enabled : Option Bool
  pub scan_mode : Given ScanMode
  pub patterns : Option (List String)

-- `sourceRedactionStrategies`: a value that is no array is an object without a length.
pub data StrategiesInput : Type 0 where
  not_sent : StrategiesInput
  no_array : StrategiesInput
  array : List (Given SourceRedactionStrategy) → StrategiesInput

pub record PiiRegistryDeclarationInput : Type 0 where
  pub resource_id : String
  pub system : Given PiiSystem
  pub resource_layer : Given PiiResourceLayer
  pub visibility : Given PiiResourceVisibility
  pub tenant_id_column : Option String
  pub user_id_column : Option String
  pub pubsub_allowed_caller : Option String
  pub user_id_field_path : Option String
  pub updated_at_column : Option String
  -- `none`: no array
  pub pii_fields : Option (List PiiFieldDeclarationInput)
  pub deletion_strategy : Given DeletionStrategy
  pub source_redaction_strategy : Given SourceRedactionStrategy
  pub source_redaction_strategies : StrategiesInput
  pub ghost_data_scan : Option GhostDataScanInput
  pub status : Given RegistryEntryStatus
  pub notes : Option String

abbrev between : ℕ → ℕ → ℕ → Bool
between low high n = leb low n && leb n high

-- `\s`, which is also what `trim` removes.
abbrev pub is_space : Char → Bool
is_space c =
    between 9 13 (code c)
    || (nat_beq (code c) 32
        || (nat_beq (code c) 160
            || (nat_beq (code c) 5760
                || (between 8192 8202 (code c)
                    || (between 8232 8233 (code c)
                        || (nat_beq (code c) 8239
                            || (nat_beq (code c) 8287
                                || (nat_beq (code c) 12288 || nat_beq (code c) 65279))))))))

-- `value.trim().length > 0`: some character is no space.
unfoldable pub is_non_empty_string : String → Bool
is_non_empty_string String.[] = false
is_non_empty_string (String.◌∷◌ c s) = not (is_space c) || is_non_empty_string s

abbrev pub is_non_empty : Option String → Bool
is_non_empty none = false
is_non_empty (some s) = is_non_empty_string s

unfoldable pub has_no_space : String → Bool
has_no_space String.[] = true
has_no_space (String.◌∷◌ c s) = not (is_space c) && has_no_space s

-- `[^\s]+$`
abbrev is_solid : String → Bool
is_solid String.[] = false
is_solid (String.◌∷◌ c s) = has_no_space (String.◌∷◌ c s)

-- The rest of `^[a-z]+:[^\s]+$`; the flag tells whether a letter has been read.
unfoldable pub matches_uri : Bool → String → Bool
unfolding has_no_space
matches_uri seen String.[] = false
matches_uri seen (String.◌∷◌ c s) =
    let rest = matches_uri true s in
    if between b'a' b'z' (code c) then rest else seen && (nat_beq (code c) b':' && is_solid s)
