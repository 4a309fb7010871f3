-- ===== src/Routes/Http.antt =====
-- What the handlers share: replies, the tenant header, and the checks of middleware/validation.ts on user
-- ids. Joi tests a pattern and the length; an id that passes is ASCII, so its length is its characters.
use Prim.Native.Char.{Char, code}
use chameleon_vault.Prelude.{
  ℕ, ◌+◌, String, Bool, true, ◌&&◌, ◌||◌, Option, none, some, leb, nat_beq, is_some, if◌then◌else◌,
  or_default,
}
use chameleon_vault.Keys.Registry.{or_text}

-- A body with its status, or an error body with its status.
pub data Reply (A : Type 0) : Type 0 where
  sent : ℕ → A → Reply A
  refused : ℕ → Reply A

abbrev pub code_of : {A : Type 0} → Reply A → ℕ
code_of (sent n a) = n
code_of (refused n) = n

-- `request.headers['x-tenant-id'] || 'default-tenant'`
abbrev pub default_tenant : String
default_tenant = "default-tenant"

abbrev pub tenant_header : Option String → String
tenant_header h = or_default (or_text h none) default_tenant

abbrev between : ℕ → ℕ → ℕ → Bool
between low high n = leb low n && leb n high

-- `[a-zA-Z0-9-_]`
abbrev is_id_char : Char → Bool
is_id_char c =
    between b'a' b'z' (code c)
    || (between b'A' b'Z' (code c)
        || (between b'0' b'9' (code c) || (nat_beq (code c) b'-' || nat_beq (code c) b'_')))

unfoldable pub all_id_chars : String → Bool
all_id_chars String.[] = true
all_id_chars (String.◌∷◌ c s) = is_id_char c && all_id_chars s

-- The length in UTF-16 units.
unfoldable pub text_length : String → ℕ
text_length String.[] = 0
text_length (String.◌∷◌ c s) = (if leb 65536 (code c) then 2 else 1) + text_length s

-- `userIdSchema`
unfoldable pub is_user_id : String → Bool
unfolding all_id_chars text_length
is_user_id s = all_id_chars s && between 1 64 (text_length s)

-- `userId` and `user_id` of a body.
pub record UserRef : Type 0 where
  pub user_id_camel : Option String
  pub user_id_snake : Option String

abbrev optional_id : Option String → Bool
optional_id none = true
optional_id (some s) = is_user_id s

-- Both valid if they are there, `.or('userId', 'user_id')`.
unfoldable pub is_valid_ref : UserRef → Bool
is_valid_ref b =
    (optional_id b.user_id_camel && optional_id b.user_id_snake)
    && (is_some b.user_id_camel || is_some b.user_id_snake)

-- `body.userId || body.user_id`
abbrev pub user_of : UserRef → String
user_of b = or_default (or_text b.user_id_camel b.user_id_snake) ""

-- `plaintextSchema`
unfoldable pub is_plaintext : String → Bool
is_plaintext s = between 1 10240 (text_length s)
