-- ===== src/Redaction/Identifiers.antt =====
-- services/sql-identifier-safety.ts, `parseBigQueryResourceId` of gcp/bigquery-schema-service.ts and
-- services/pii-vault-pivot-sql.ts.
use Prim.Native.Char.{Char, code}
use Prim.Native.String
use chameleon_vault.Prelude.{
  ℕ, String, Bool, true, false, ◌&&◌, ◌||◌, not, Option, none, some, List, [], ◌∷◌, ok, err, Result,
  nat_beq, leb, if◌then◌else◌, ◌==◌,
}

abbrev in_range : ℕ → ℕ → ℕ → Bool
in_range low high n = leb low n && leb n high

-- `[a-zA-Z_]`
abbrev pub is_start : Char → Bool
is_start c = in_range b'a' b'z' (code c) || (in_range b'A' b'Z' (code c) || nat_beq (code c) b'_')

-- `[a-zA-Z0-9_]`
abbrev pub is_part : Char → Bool
is_part c = is_start c || in_range b'0' b'9' (code c)

unfoldable pub all_parts : String → Bool
all_parts String.[] = true
all_parts (String.◌∷◌ c s) = is_part c && all_parts s

-- `SAFE_IDENTIFIER.test`
unfoldable pub is_safe_identifier : String → Bool
is_safe_identifier String.[] = false
is_safe_identifier (String.◌∷◌ c s) = is_start c && all_parts s

abbrev refusal : String → String
refusal i =
    String.◌++◌ "Refusing to use \""
      (String.◌++◌ i "\" as a SQL identifier: not a safe column/table name.")

unfoldable pub assert_safe_identifiers : List String → Result String (Unit {0})
assert_safe_identifiers [] = ok tt
assert_safe_identifiers (i ∷ is) =
    let rest = assert_safe_identifiers is in if is_safe_identifier i then rest else err (refusal i)

-- The text before the first dot, and what follows it, if there is one.
unfoldable pub until_dot : String → String × Option String
until_dot String.[] = ("", none)
until_dot (String.◌∷◌ c s) =
    let rest = until_dot s in
    if nat_beq (code c) b'.' then ("", some s) else (String.◌∷◌ c rest.0, rest.1)

pub record TableRef : Type 0 where
  pub project_id : String
  pub dataset_id : String
  pub table_id : String

abbrev without : Char → Option String → Option String
without c none = none
without c (some String.[]) = none
without c (some (String.◌∷◌ d s)) = if nat_beq (code c) (code d) then some s else none

abbrev has_none : Option String → Bool
has_none none = true
has_none (some s) = false

-- The third part has no dot, and no part is empty.
abbrev third : String → String → String × Option String → Option TableRef
third p d (t, rest) =
    if has_none rest && (not (p == "") && (not (d == "") && not (t == "")))
    then some (record { project_id = p; dataset_id = d; table_id = t })
    else none

abbrev second : String → String × Option String → Option TableRef
second p (d, none) = none
second p (d, some s) = third p d (until_dot s)

abbrev first_part : String × Option String → Option TableRef
first_part (p, none) = none
first_part (p, some s) = second p (until_dot s)

abbrev split_table : Option String → Option TableRef
split_table none = none
split_table (some s) = first_part (until_dot s)

abbrev after_bigquery : String → Option String
after_bigquery s = without ":" (
    without "y" (
      without "r" (
        without "e"
          (without "u" (without "q" (without "g" (without "i" (without "b" (some s)))))))))

abbrev not_a_table : String → String
not_a_table id =
    String.◌++◌ "\"" (
      String.◌++◌ id "\" is not a bigquery resource ID in the form bigquery:project.dataset.table.")

-- `/^bigquery:([^.]+)\.([^.]+)\.([^.]+)$/`
unfoldable pub parse_big_query_resource_id : String → Result String TableRef
parse_big_query_resource_id id = elim (split_table (after_bigquery id)) [
  | none ↦ err (not_a_table id)
  | some t ↦ ok t
]

-- `value.replace(/'/g, "''")`
unfoldable pub escape_sql_string_literal : String → String
escape_sql_string_literal String.[] = ""
escape_sql_string_literal (String.◌∷◌ c s) =
    let rest = escape_sql_string_literal s in
    if nat_beq (code c) 39 then String.◌∷◌ c (String.◌∷◌ c rest) else String.◌∷◌ c rest
