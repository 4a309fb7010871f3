-- ===== src/Examples/Routes.antt =====
-- The theorem on the encryption routes, at a sample key.
use chameleon_vault.Prelude.{String, ◌≡◌, refl, none, some, [], ◌∷◌, ok, find, true, arith}
use chameleon_vault.Keys.Registry.{new_key, version_id}
use chameleon_vault.Crypto.Aes.{Bytes}
use chameleon_vault.Prelude.Decimal.{show}
use chameleon_vault.Routes.Http.{
  sent, UserRef, is_plaintext, is_valid_ref, is_user_id, all_id_chars, text_length,
}
use chameleon_vault.Routes.Crypto.Vault.{KeyVault, CryptoEnv}
use chameleon_vault.Routes.Crypto.Cipher.{EncryptBody, encrypt_route, decrypt_route}
use chameleon_vault.Routes.Crypto.RoundTrip.{Holds, rotate_all, decrypt_route-encrypt_route}
use chameleon_vault.Examples.Ciphers.{plain_cipher, plain_cipher-IsAead, spelled-is_base64}

abbrev ones : Bytes
ones =
    1 ∷ 1 ∷ 1 ∷ 1 ∷ 1 ∷ 1 ∷ 1 ∷ 1 ∷ 1 ∷ 1 ∷ 1 ∷ 1 ∷ 1 ∷ 1 ∷ 1 ∷ 1 ∷ 1 ∷ 1 ∷ 1 ∷ 1 ∷ 1 ∷ 1 ∷ 1 ∷ 1
    ∷ 1 ∷ 1 ∷ 1 ∷ 1 ∷ 1 ∷ 1 ∷ 1 ∷ 1 ∷ []

abbrev crypto_env : CryptoEnv
crypto_env = record {
  now = 5;
  ensure_tenant_key = λ tenant. none;
  new_dek = λ n tenant. ok "dek-2";
  decrypt_dek = λ dek tenant. ok ones;
  primitives = plain_cipher;
  lineage_up = true;
}

abbrev ana : UserRef
ana = record { user_id_camel = some "u1"; user_id_snake = none }

abbrev vault : KeyVault
vault = record { keys = ("acme:u1", new_key 5 "u1" "dek-1") ∷ []; audit = [] }

abbrev form : EncryptBody
form = record { plaintext = "hi"; user = ana }

key_there : Holds "u1" "acme" (version_id 1) "dek-1" vault.keys
unfolding find version_id show
key_there = record {
  key = new_key 5 "u1" "dek-1";
  stored = refl;
  versioned = record {
    some_key = omega arith;
    numbered = (refl, tt);
    active_last = refl;
    status = refl;
  };
  dek_there = refl;
}

decrypt_route-encrypt_route_example :
    (c : String) × ((encrypt_route crypto_env (some "acme") form vault).0 ≡ sent 200 c)
    × ((decrypt_route crypto_env
          (some "acme")
          (record { ciphertext = c; user = ana })
          (record vault {
            keys = rotate_all "u1" "acme" ((6, "dek-2") ∷ (7, "dek-3") ∷ []) vault.keys;
          })).0
        ≡ sent 200 "hi")
unfolding is_plaintext is_valid_ref is_user_id all_id_chars text_length version_id show key_there
decrypt_route-encrypt_route_example =
    decrypt_route-encrypt_route crypto_env plain_cipher-IsAead spelled-is_base64 (some "acme") form
      vault "dek-1" ones ((6, "dek-2") ∷ (7, "dek-3") ∷ []) 1 refl refl refl key_there refl refl
      refl
