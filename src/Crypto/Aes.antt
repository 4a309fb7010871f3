-- ===== src/Crypto/Aes.antt =====
-- crypto/deterministic-aes.ts. The cipher, the hash and the encodings of Node are parameters; a buffer is
-- the list of its bytes. What is thrown is one of three texts or the cipher's own.
use chameleon_vault.Prelude.{
  ℕ, zero, suc, ◌-◌, ◌≡◌, String, Option, none, some, List, [], ◌∷◌, ◌++◌, nat_beq, ltb,
  if◌then◌else◌, length, Result, ok, err,
}

pub data AesError : Type 0 where
  bad_key_size : AesError
  too_short : AesError
  not_authentic : AesError

abbrev pub Bytes : Type 0
Bytes = List ℕ

pub record Primitives : Type 0 where
  pub sha256 : Bytes → Bytes
  -- `createCipheriv(...)`: the ciphertext and the authentication tag, from key, IV, AAD and plaintext
  pub seal : Bytes → Bytes → Bytes → Bytes → Bytes × Bytes
  -- `createDecipheriv(...)`: from key, IV, AAD, tag and ciphertext
  pub unseal : Bytes → Bytes → Bytes → Bytes → Bytes → Option Bytes
  pub base64 : Bytes → String
  pub from_base64 : String → Bytes
  pub utf8 : String → Bytes
  pub from_utf8 : Bytes → String

abbrev pub key_size : ℕ
key_size = 32

abbrev iv_size : ℕ
iv_size = 12

abbrev pub auth_tag_size : ℕ
auth_tag_size = 16

-- `buffer.slice(0, n)` and `buffer.slice(n)`
unfoldable pub take : ℕ → Bytes → Bytes
take zero bs = []
take (suc n) [] = []
take (suc n) (b ∷ bs) = b ∷ take n bs

unfoldable pub drop : ℕ → Bytes → Bytes
drop zero bs = bs
drop (suc n) [] = []
drop (suc n) (b ∷ bs) = drop n bs

module _ (p : Primitives) where
  unfoldable pub generate_deterministic_iv : String → Bytes
  generate_deterministic_iv user_id = take iv_size (p.sha256 (p.utf8 user_id))

  unfoldable pub encrypt : String → String → Bytes → Result AesError String
  encrypt plaintext user_id dek =
      if nat_beq (length dek) key_size
      then (let (sealed, tag) =
            p.seal dek (generate_deterministic_iv user_id) (p.utf8 user_id) (p.utf8 plaintext) in
          ok (p.base64 (sealed ++ tag)))
      else err bad_key_size

  abbrev opened : Option Bytes → Result AesError String
  opened none = err not_authentic
  opened (some bs) = ok (p.from_utf8 bs)

  unfoldable pub decrypt : String → String → Bytes → Result AesError String
  decrypt ciphertext user_id dek =
      let combined = p.from_base64 ciphertext in
      let n = length combined - auth_tag_size in
      if nat_beq (length dek) key_size
      then (if ltb (length combined) auth_tag_size
          then err too_short
          else opened (
              p.unseal dek (generate_deterministic_iv user_id) (p.utf8 user_id) (drop n combined)
                (take n combined)))
      else err bad_key_size

-- What Node documents of the parameters.
pub record IsAead (p : Primitives) : Type 0 where
  pub unseal-seal :
      (key iv aad plaintext : Bytes)
      → p.unseal key iv aad (p.seal key iv aad plaintext).1 (p.seal key iv aad plaintext).0
        ≡ some plaintext
  pub tag_length :
      (key iv aad plaintext : Bytes) → length (p.seal key iv aad plaintext).1 ≡ auth_tag_size
  pub from_base64-base64 : (bs : Bytes) → p.from_base64 (p.base64 bs) ≡ bs
  pub from_utf8-utf8 : (s : String) → p.from_utf8 (p.utf8 s) ≡ s
