-- ===== src/Routes/Crypto/Cipher.antt =====
-- routes/crypto.ts: POST /encrypt and POST /decrypt.
use Prim.Native.Char.{Char, code}
use Prim.Native.String
use chameleon_vault.Prelude.{
  ℕ, String, Bool, true, false, ◌&&◌, ◌||◌, Option, none, some, leb, nat_beq, Result, ok, err,
  if◌then◌else◌, or_default, ◌==◌, not,
}
use chameleon_vault.Fault.{Fault}
use chameleon_vault.Keys.Registry.{get_key_for_user, or_text}
use chameleon_vault.Crypto.Aes.{Bytes, AesError, encrypt, decrypt}
use chameleon_vault.Routes.Http.{
  Reply, sent, refused, tenant_header, UserRef, is_valid_ref, user_of, is_plaintext,
}
use chameleon_vault.Routes.Crypto.Vault.{
  KeyVault, CryptoEnv, record_audit, encryption_performed, decryption_performed,
}

pub record EncryptBody : Type 0 where
  pub plaintext : String
  pub user : UserRef

-- `${activeDekId}:${ciphertext}`; what is undefined is printed as such.
unfoldable pub tagged : Option String → String → String
tagged version c = String.◌++◌ (or_default version "undefined") (String.◌∷◌ ":" c)

abbrev encrypt_reply :
    CryptoEnv → String → Option String → Result AesError String → KeyVault → Reply String × KeyVault
encrypt_reply env user version (err e) v = (refused 500, v)
encrypt_reply env user version (ok c) v =
    (sent 200 (tagged version c), record_audit env encryption_performed user v)

-- With the DEK that Cloud KMS has decrypted.
abbrev encrypt_with :
    CryptoEnv
    → String
    → String
    → Option String
    → Result Fault Bytes
    → KeyVault
    → Reply String × KeyVault
encrypt_with env user plaintext version (err e) v = (refused 500, v)
encrypt_with env user plaintext version (ok dek) v =
    encrypt_reply env user version (encrypt env.primitives plaintext user dek) v

unfoldable pub encrypt_route :
    CryptoEnv → Option String → EncryptBody → KeyVault → Reply String × KeyVault
encrypt_route env header b v =
    if is_plaintext b.plaintext && is_valid_ref b.user
    then elim (get_key_for_user (user_of b.user) (tenant_header header) none v.keys) [
      | none ↦ (refused 404, v)
      | some k ↦
          encrypt_with env (user_of b.user) b.plaintext k.active_dek_id
            (env.decrypt_dek k.encrypted_dek (tenant_header header)) v
    ]
    else (refused 400, v)

pub record DecryptBody : Type 0 where
  pub ciphertext : String
  pub user : UserRef

abbrev between : ℕ → ℕ → ℕ → Bool
between low high n = leb low n && leb n high

-- `[A-Za-z0-9+/=]`
abbrev is_base64_char : Char → Bool
is_base64_char c =
    between b'a' b'z' (code c)
    || (between b'A' b'Z' (code c)
        || (between b'0' b'9' (code c)
            || (nat_beq (code c) b'+' || (nat_beq (code c) b'/' || nat_beq (code c) b'='))))

unfoldable pub all_base64 : String → Bool
all_base64 String.[] = true
all_base64 (String.◌∷◌ c s) = is_base64_char c && all_base64 s

-- `[A-Za-z0-9+/=]+$`
unfoldable pub is_base64 : String → Bool
unfolding all_base64
is_base64 s = not (s == "") && all_base64 s

-- `\d+:` and the rest; the flag tells whether a digit has been read.
unfoldable pub after_digits : Bool → String → Option String
after_digits seen String.[] = none
after_digits seen (String.◌∷◌ c s) =
    let rest = after_digits true s in
    if between b'0' b'9' (code c)
    then rest
    else (if seen && nat_beq (code c) b':' then some s else none)

abbrev base64_rest : Option String → Bool
base64_rest none = false
base64_rest (some s) = is_base64 s

-- `^v\d+:[A-Za-z0-9+/=]+$`
unfoldable pub is_ciphertext : String → Bool
unfolding after_digits is_base64
is_ciphertext String.[] = false
is_ciphertext (String.◌∷◌ c s) = nat_beq (code c) b'v' && base64_rest (after_digits false s)

-- `split(':', 2)` of a text with a colon: what stands before the first and before the second one.
unfoldable pub until_colon : String → String × Option String
until_colon String.[] = ("", none)
until_colon (String.◌∷◌ c s) =
    let rest = until_colon s in
    if nat_beq (code c) b':' then ("", some s) else (String.◌∷◌ c rest.0, rest.1)

abbrev second_part : Option String → Option String
second_part none = none
second_part (some s) = some (until_colon s).0

unfoldable pub split_colon : String → String × Option String
unfolding until_colon
split_colon s = let (version, rest) = until_colon s in (version, second_part rest)

abbrev decrypt_reply :
    CryptoEnv → String → Result AesError String → KeyVault → Reply String × KeyVault
decrypt_reply env user (err e) v = (refused 400, v)
decrypt_reply env user (ok plaintext) v =
    (sent 200 plaintext, record_audit env decryption_performed user v)

-- Whatever throws in this handler is a 400.
abbrev decrypt_with :
    CryptoEnv → String → String → Result Fault Bytes → KeyVault → Reply String × KeyVault
decrypt_with env user c (err e) v = (refused 400, v)
decrypt_with env user c (ok dek) v = decrypt_reply env user (decrypt env.primitives c user dek) v

abbrev pub decrypt_parts :
    CryptoEnv → String → String → Option String → Option String → KeyVault → Reply String × KeyVault
decrypt_parts env tenant user (some version) (some c) v =
    elim (get_key_for_user user tenant (some version) v.keys) [
      | none ↦ (refused 404, v)
      | some k ↦ decrypt_with env user c (env.decrypt_dek k.encrypted_dek tenant) v
    ]
decrypt_parts env tenant user none c v = (refused 400, v)
decrypt_parts env tenant user (some version) none v = (refused 400, v)

unfoldable pub decrypt_route :
    CryptoEnv → Option String → DecryptBody → KeyVault → Reply String × KeyVault
decrypt_route env header b v =
    let (version, c) = split_colon b.ciphertext in
    if is_ciphertext b.ciphertext && is_valid_ref b.user
    then decrypt_parts env (tenant_header header) (user_of b.user) (or_text (some version) none)
        (or_text c none) v
    else (refused 400, v)
