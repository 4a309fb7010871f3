-- ===== src/Certificate/Destinations.antt =====
-- certificate-signer/sign.ts, `parseSourceRedactionDestination`, and the keys of `janitor_wipes` that
-- services/deletion-request-service.ts makes for the resources of a source redaction.
use Prim.Native.Char.{Char, code}
use Prim.Native.String
use mathlib.Core.Option.{some-injective, none-ne-some}
use text.Mathlib.TextLemmas.{nil-append, cons-append}
use chameleon_vault.Prelude.{
  ℕ, String, ◌≡◌, refl, sym, ap, ◌∙◌, ◌≢◌, inl, inr, Bool, true, ◌&&◌, ◌||◌, not, Option, none,
  some, arith, ◌==◌, eq_iff, nat_beq, if◌then◌else◌, Option-cases, Bool-cases,
}
use chameleon_vault.Certificate.Claims.{ExceptionStrategy, redact_in_place, encrypted_copy}

abbrev pub redact_suffix : String
redact_suffix = "::REDACT_IN_PLACE"

abbrev pub encrypted_suffix : String
encrypted_suffix = "::ENCRYPTED_COPY"

-- `${result.resourceId}::REDACT_IN_PLACE` and `${result.resourceId}::ENCRYPTED_COPY`
unfoldable pub redact_destination : String → String
redact_destination resource_id = String.◌++◌ resource_id redact_suffix

unfoldable pub encrypted_destination : String → String
encrypted_destination resource_id = String.◌++◌ resource_id encrypted_suffix

-- A step of `before`, once the rest of the text is cut.
abbrev one_more : Char → Bool → Option String → Option String
one_more c here (some r) = some (String.◌∷◌ c r)
one_more c here none = if here then some "" else none

-- What stands before the suffix, if the text ends in it.
unfoldable pub before : String → String → Option String
before suffix String.[] = none
before suffix (String.◌∷◌ c s) = one_more c (String.◌∷◌ c s == suffix) (before suffix s)

-- What `.` of a regular expression does not match.
abbrev is_line_end : Char → Bool
is_line_end c =
    nat_beq (code c) 10 || (nat_beq (code c) 13 || (nat_beq (code c) 8232 || nat_beq (code c) 8233))

unfoldable pub one_line : String → Bool
one_line String.[] = true
one_line (String.◌∷◌ c s) = not (is_line_end c) && one_line s

-- `(.+)`
abbrev pub is_resource : String → Bool
is_resource r = not (r == "") && one_line r

abbrev tagged : ExceptionStrategy → Option String → Option (String × ExceptionStrategy)
tagged strategy none = none
tagged strategy (some r) = if is_resource r then some (r, strategy) else none

abbrev either :
    Option (String × ExceptionStrategy)
    → Option (String × ExceptionStrategy)
    → Option (String × ExceptionStrategy)
either (some p) o = some p
either none o = o

-- `destination.match(/^(.+)::(REDACT_IN_PLACE|ENCRYPTED_COPY)$/)`
unfoldable pub parse_source_redaction_destination : String → Option (String × ExceptionStrategy)
parse_source_redaction_destination d =
    either (tagged redact_in_place (before redact_suffix d))
      (tagged encrypted_copy (before encrypted_suffix d))

module _ (suffix : String) (self : before suffix suffix ≡ some "") where
  before-append : (r : String) → before suffix (String.◌++◌ r suffix) ≡ some r
  unfolding before
  before-append String.[] = ap (before suffix) (nil-append suffix) ∙ self
  before-append (String.◌∷◌ c r) = rw (cons-append, before-append r) refl

before_sound : (suffix d r : String) → before suffix d ≡ some r → d ≡ String.◌++◌ r suffix
unfolding before
before_sound suffix String.[] r e = absurd (none-ne-some r e)
before_sound suffix (String.◌∷◌ c s) r e = elim (Option-cases (before suffix s)) [
  | inr (t, here) ↦
      let e' : some (String.◌∷◌ c t) ≡ some r = rw here at e in
      ap (String.◌∷◌ c) (before_sound suffix s t here)
      ∙ sym (cons-append c t suffix)
      ∙ ap (λ x. String.◌++◌ x suffix) (some-injective _ _ e')
  | inl gone ↦ elim (Bool-cases (String.◌∷◌ c s == suffix)) [
    | inl same ↦
        let e' : some "" ≡ some r = rw (gone, same) at e in
        (eq_iff (String.◌∷◌ c s) suffix).0 same
        ∙ sym (nil-append suffix)
        ∙ ap (λ x. String.◌++◌ x suffix) (some-injective _ _ e')
    | inr other ↦ let e' : none ≡ some r = rw (gone, other) at e in absurd (none-ne-some r e')
  ]
]

last_code : ℕ → String → ℕ
last_code k String.[] = k
last_code k (String.◌∷◌ c s) = last_code (code c) s

last_code-append :
    (k : ℕ) (r : String) (c : Char) (s : String)
    → last_code k (String.◌++◌ r (String.◌∷◌ c s)) ≡ last_code (code c) s
unfolding last_code
last_code-append k String.[] c s = ap (last_code k) (nil-append (String.◌∷◌ c s))
last_code-append k (String.◌∷◌ d r) c s = rw (cons-append, last_code-append (code d) r c s) refl

-- A text does not end in both suffixes.
one_suffix : (r t : String) → String.◌++◌ r encrypted_suffix ≢ String.◌++◌ t redact_suffix
unfolding last_code
one_suffix r t e = absurd (
    apart (
      sym (last_code-append 0 r ":" ":ENCRYPTED_COPY")
      ∙ ap (last_code 0) e
      ∙ last_code-append 0 t ":" ":REDACT_IN_PLACE"))
  where
    apart : ◌≢◌ {A = ℕ} 89 69
    apart h = omega arith

-- The keys that the service writes are read back, with the resource and the strategy they are for.
pub parse-destination :
    (r : String)
    → is_resource r ≡ true
    → (parse_source_redaction_destination (redact_destination r) ≡ some (r, redact_in_place))
      × (parse_source_redaction_destination (encrypted_destination r) ≡ some (r, encrypted_copy))
unfolding parse_source_redaction_destination redact_destination encrypted_destination before
parse-destination r h = (
  rw (before-append redact_suffix refl r, h) refl,
  rw (elsewhere, before-append encrypted_suffix refl r, h) refl,
)
  where
    elsewhere : before redact_suffix (String.◌++◌ r encrypted_suffix) ≡ none
    elsewhere = elim (Option-cases (before redact_suffix (String.◌++◌ r encrypted_suffix))) [
      | inl gone ↦ gone
      | inr (t, e) ↦ absurd (one_suffix r t (before_sound redact_suffix _ t e))
    ]
