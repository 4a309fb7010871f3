-- ===== src/Routes/Crypto/RoundTrip.antt =====
-- POST /decrypt gives back what POST /encrypt was given, also after rotations of the key.
use chameleon_vault.Prelude.{
  ℕ, ◌≤◌, String, ◌≡◌, refl, sym, ap, ◌∙◌, inl, inr, true, false, Option, none, some, List, [], ◌∷◌,
  arith, ◌==◌, eq_iff, find, find-put_self, length, nat_beq, or_default, ok, Bool-cases,
}
use chameleon_vault.Prelude.Decimal.{is_nonempty}
use chameleon_vault.Keys.Registry.{
  or_text, KeyMetadata, KeyData, Keys, doc_id, version_id, get_key_for_user, rotate_key_for_user,
}
use chameleon_vault.Keys.Rotation.{IsVersioned, rotate-Rotated}
use chameleon_vault.Crypto.Aes.{decrypt, Bytes, IsAead, key_size}
use chameleon_vault.Crypto.RoundTrip.{decrypt-encrypt}
use chameleon_vault.Routes.Http.{sent, is_valid_ref, user_of, tenant_header, is_plaintext}
use chameleon_vault.Routes.Crypto.Vault.{KeyVault, CryptoEnv}
use chameleon_vault.Routes.Crypto.Cipher.{
  is_base64, EncryptBody, encrypt_route, decrypt_route, decrypt_parts, tagged,
}
use chameleon_vault.Routes.Crypto.Tagged.{v_number, base64_parts, tagged-IsCiphertext, split-tagged}

-- Rotations of one user's key, each with its time and its new DEK.
abbrev pub rotate_all : String → String → List (ℕ × String) → Keys → Keys
rotate_all user tenant [] m = m
rotate_all user tenant ((now, dek) ∷ rs) m =
    rotate_all user tenant rs (rotate_key_for_user now user dek tenant m).1

-- A stored key with this DEK at this version.
pub record Holds (user tenant version dek : String) (m : Keys) : Type 0 where
  pub key : KeyMetadata
  pub stored : find (doc_id tenant user) m ≡ some key
  pub versioned : IsVersioned key
  pub dek_there : find version key.deks ≡ some dek

rotate-Holds :
    (user tenant version dek : String) (now : ℕ) (new_dek : String) (m : Keys)
    → Holds user tenant version dek m
    → Holds user tenant version dek (rotate_key_for_user now user new_dek tenant m).1
rotate-Holds user tenant version dek now new_dek m h =
    let (id, new, wrote, r) = rotate-Rotated now user new_dek tenant m h.key h.stored h.versioned in
    record {
      key = new;
      stored = rw wrote (find-put_self (doc_id tenant user) new m);
      versioned = r.versioned;
      dek_there = r.kept version dek h.dek_there;
    }

rotate_all-Holds :
    (user tenant version dek : String) (rs : List (ℕ × String)) (m : Keys)
    → Holds user tenant version dek m
    → Holds user tenant version dek (rotate_all user tenant rs m)
rotate_all-Holds user tenant version dek [] m h = h
rotate_all-Holds user tenant version dek ((now, d) ∷ rs) m h =
    rotate_all-Holds user tenant version dek rs _ (rotate-Holds user tenant version dek now d m h)

version-nonempty : (n : ℕ) → (version_id n == "") ≡ false
version-nonempty n = elim (Bool-cases (version_id n == "")) [
  | inr other ↦ other
  | inl same ↦
      let text : true ≡ false =
        ap is_nonempty (sym (v_number n) ∙ (eq_iff (version_id n) "").0 same) in
      cc
]

abbrev Reads : String → Option String → Option KeyData → Type 0
Reads dek active read =
    (k : KeyData) × (read ≡ some k) × (k.encrypted_dek ≡ dek) × (k.active_dek_id ≡ active)

module _ (user tenant dek : String) (n : ℕ) (m : Keys) (some_dek : (dek == "") ≡ false) where
  abbrev data_of : KeyMetadata → KeyData
  data_of k = record {
    encrypted_dek = dek;
    active_dek_id = k.active_dek_id;
    encryption_version = or_default (or_text k.encryption_version none) "v1";
  }

  read_version :
      (h : Holds user tenant (version_id n) dek m)
      → Reads dek h.key.active_dek_id (get_key_for_user user tenant (some (version_id n)) m)
  unfolding get_key_for_user
  read_version h =
      let some_key : nat_beq (length h.key.deks) 0 ≡ false = ground (arith, h.versioned.some_key) in
      (
        data_of h.key,
        rw (get_key_for_user, h.stored, h.versioned.status, some_key, version-nonempty n)
            (rw (h.dek_there, version-nonempty n, some_dek) refl),
        refl,
        refl,
      )

  read_active :
      (h : Holds user tenant (version_id n) dek m)
      → h.key.active_dek_id ≡ some (version_id n)
      → Reads dek (some (version_id n)) (get_key_for_user user tenant none m)
  unfolding get_key_for_user
  read_active h e =
      let some_key : nat_beq (length h.key.deks) 0 ≡ false = ground (arith, h.versioned.some_key) in
      (
        data_of h.key,
        rw (get_key_for_user, h.stored, h.versioned.status, some_key, e, version-nonempty n)
            (rw (h.dek_there, some_dek) refl),
        refl,
        e,
      )

decrypt_parts-sent :
    (env : CryptoEnv) (tenant user version c plaintext : String) (v : KeyVault) (k : KeyData)
    (key : Bytes)
    → get_key_for_user user tenant (some version) v.keys ≡ some k
    → env.decrypt_dek k.encrypted_dek tenant ≡ ok key
    → decrypt env.primitives c user key ≡ ok plaintext
    → (decrypt_parts env tenant user (some version) (some c) v).0 ≡ sent 200 plaintext
decrypt_parts-sent env tenant user version c plaintext v k key read unwraps decrypted =
    rw (decrypt_parts, read, unwraps, decrypted) refl

module _ (env : CryptoEnv) (laws : IsAead env.primitives) where
  -- `base64` gives a text of the base64 alphabet.
  abbrev pub Base64Texts : Type 0
  Base64Texts = (bs : Bytes) → 1 ≤ length bs → is_base64 (env.primitives.base64 bs) ≡ true

  -- A valid text that is encrypted with the active version of a stored key comes back from a decryption
  -- for the same user and tenant, after any rotations of the key, if Cloud KMS gives back a DEK of 32
  -- bytes and the cipher and the encodings of Node are what Node documents.
  pub decrypt_route-encrypt_route :
      (plain64 : Base64Texts) (header : Option String) (b : EncryptBody) (v : KeyVault)
      (dek : String) (key : Bytes) (rs : List (ℕ × String)) (n : ℕ)
      → is_plaintext b.plaintext ≡ true
      → is_valid_ref b.user ≡ true
      → (dek == "") ≡ false
      → (h : Holds (user_of b.user) (tenant_header header) (version_id n) dek v.keys)
      → h.key.active_dek_id ≡ some (version_id n)
      → env.decrypt_dek dek (tenant_header header) ≡ ok key
      → length key ≡ key_size
      → (c : String) × ((encrypt_route env header b v).0 ≡ sent 200 c)
        × ((decrypt_route env header
              (record { ciphertext = c; user = b.user })
              (record v { keys = rotate_all (user_of b.user) (tenant_header header) rs v.keys })).0
            ≡ sent 200 b.plaintext)
  unfolding encrypt_route decrypt_route
  decrypt_route-encrypt_route plain64 header b v dek key rs n text ref some_dek h is_active unwraps
        size =
      let user = user_of b.user in
      let tenant = tenant_header header in
      let (bs, long, encrypted, decrypted) =
        decrypt-encrypt env.primitives laws b.plaintext user key size in
      let ct = env.primitives.base64 bs in
      let is64 : is_base64 ct ≡ true = plain64 bs (omega (arith, long)) in
      let (ct_nonempty, _) = base64_parts ct is64 in
      let now = read_active user tenant dek n v.keys some_dek h is_active in
      let after = rotate_all-Holds user tenant (version_id n) dek rs v.keys h in
      let read = read_version user tenant dek n _ some_dek after in
      (
        tagged (some (version_id n)) ct,
        rw (text, ref, now.1, now.2, now.3, unwraps, encrypted) refl,
        rw (tagged-IsCiphertext n ct is64, ref, split-tagged n ct is64)
            (rw (version-nonempty n, ct_nonempty)
              (decrypt_parts-sent env tenant user (version_id n) ct b.plaintext _ read.0 key read.1
                (rw (read.2) unwraps) decrypted)),
      )
