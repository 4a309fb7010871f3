-- ===== src/Routes/Crypto/Tagged.antt =====
-- The text that POST /encrypt answers is taken apart by POST /decrypt into the version and the ciphertext.
use Prim.Native.Char.{code}
use Prim.Native.String
use text.Mathlib.TextLemmas.{nil-append, cons-append}
use chameleon_vault.Prelude.{
  ℕ, String, ◌≡◌, refl, ap, ◌∙◌, Bool, true, false, ◌||◌, none, some, arith, ◌==◌, nat_beq,
}
use chameleon_vault.Prelude.Decimal.{show, all_digits, is_nonempty, show-digits}
use chameleon_vault.Keys.Registry.{version_id}
use chameleon_vault.Routes.Crypto.Cipher.{
  tagged, all_base64, is_base64, after_digits, is_ciphertext, until_colon, split_colon,
}

-- A decimal number, a colon and a rest.
after_digits-number :
    (seen : Bool) (s c : String)
    → all_digits s ≡ true
    → (seen || is_nonempty s) ≡ true
    → after_digits seen (String.◌++◌ s (String.◌∷◌ ":" c)) ≡ some c
unfolding after_digits all_digits
after_digits-number seen String.[] c h k = rw nil-append (ground arith)
after_digits-number seen (String.◌∷◌ d s) c h k =
    rw cons-append (ground (arith, after_digits-number true s c))

until_colon-number :
    (s c : String)
    → all_digits s ≡ true
    → until_colon (String.◌++◌ s (String.◌∷◌ ":" c)) ≡ (s, some c)
unfolding until_colon all_digits
until_colon-number String.[] c h = rw nil-append refl
until_colon-number (String.◌∷◌ d s) c h =
    let no_colon : nat_beq (code d) b':' ≡ false = ground arith in
    let rest : all_digits s ≡ true = ground arith in
    rw (cons-append, until_colon) (rw (no_colon, until_colon-number s c rest) refl)

until_colon-base64 : (c : String) → all_base64 c ≡ true → until_colon c ≡ (c, none)
unfolding until_colon all_base64
until_colon-base64 String.[] h = refl
until_colon-base64 (String.◌∷◌ d s) h =
    let no_colon : nat_beq (code d) b':' ≡ false = ground arith in
    let rest : all_base64 s ≡ true = ground arith in rw (no_colon, until_colon-base64 s rest) refl

pub v_number : (n : ℕ) → version_id n ≡ String.◌∷◌ "v" (show n)
unfolding version_id
v_number n = cons-append "v" "" (show n) ∙ ap (String.◌∷◌ "v") (nil-append (show n))

-- What /encrypt answers is accepted by /decrypt and split into the version and the ciphertext.
tagged_is :
    (n : ℕ) (c : String)
    → tagged (some (version_id n)) c ≡ String.◌∷◌ "v" (String.◌++◌ (show n) (String.◌∷◌ ":" c))
unfolding tagged
tagged_is n c = rw (v_number n) (cons-append "v" (show n) _)

pub tagged-IsCiphertext :
    (n : ℕ) (c : String)
    → is_base64 c ≡ true
    → is_ciphertext (tagged (some (version_id n)) c) ≡ true
unfolding is_ciphertext
tagged-IsCiphertext n c h =
    let (digits, some_digit) = show-digits n in
    let read : after_digits false (String.◌++◌ (show n) (String.◌∷◌ ":" c)) ≡ some c =
      after_digits-number false (show n) c digits some_digit in
    rw (tagged_is n c) (rw (read, h) refl)

pub base64_parts : (c : String) → is_base64 c ≡ true → ((c == "") ≡ false) × (all_base64 c ≡ true)
unfolding is_base64
base64_parts c h = ground arith

pub split-tagged :
    (n : ℕ) (c : String)
    → is_base64 c ≡ true
    → split_colon (tagged (some (version_id n)) c) ≡ (version_id n, some c)
unfolding split_colon until_colon
split-tagged n c h =
    let (digits, _) = show-digits n in
    let (_, plain) = base64_parts c h in
    rw (tagged_is n c, v_number n)
      (rw (until_colon-number (show n) c digits, until_colon-base64 c plain) refl)
