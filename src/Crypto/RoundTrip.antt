-- ===== src/Crypto/RoundTrip.antt =====
-- What is encrypted for a user is decrypted for that user.
use chameleon_vault.Prelude.{
  ◌-◌, ◌≤◌, String, ◌≡◌, refl, ap, false, [], ◌∷◌, ◌++◌, arith, length, length-append, ltb, ok,
}
use chameleon_vault.Crypto.Aes.{
  Bytes, Primitives, IsAead, key_size, auth_tag_size, take, drop, generate_deterministic_iv,
  encrypt, decrypt,
}

take-append : (xs ys : Bytes) → take (length xs) (xs ++ ys) ≡ xs
unfolding take
take-append [] ys = refl
take-append (x ∷ xs) ys = ap (λ (zs : Bytes). x ∷ zs) (take-append xs ys)

drop-append : (xs ys : Bytes) → drop (length xs) (xs ++ ys) ≡ ys
unfolding drop
drop-append [] ys = refl
drop-append (x ∷ xs) ys = drop-append xs ys

module _ (p : Primitives) (laws : IsAead p) where
  -- A text that is encrypted with a DEK of 32 bytes becomes the base64 text of some bytes, the tag among
  -- them, and decrypting it with the same user id and DEK gives the text back, if the parameters are what
  -- Node documents.
  pub decrypt-encrypt :
      (plaintext user_id : String) (dek : Bytes)
      → length dek ≡ key_size
      → (bs : Bytes) × (auth_tag_size ≤ length bs)
        × (encrypt p plaintext user_id dek ≡ ok (p.base64 bs))
        × (decrypt p (p.base64 bs) user_id dek ≡ ok plaintext)
  unfolding encrypt decrypt
  decrypt-encrypt plaintext user_id dek size =
      let iv = generate_deterministic_iv p user_id in
      let out = p.seal dek iv (p.utf8 user_id) (p.utf8 plaintext) in
      let tag = laws.tag_length dek iv (p.utf8 user_id) (p.utf8 plaintext) in
      let whole : length (out.0 ++ out.1) - auth_tag_size ≡ length out.0 =
        omega (arith, length-append out.0 out.1, tag) in
      let long : ltb (length (out.0 ++ out.1)) auth_tag_size ≡ false =
        ground (arith, length-append out.0 out.1, tag) in
      (
        out.0 ++ out.1,
        omega (arith, length-append out.0 out.1, tag),
        rw size refl,
        rw
            (
              size,
              laws.from_base64-base64 (out.0 ++ out.1),
              long,
              whole,
              drop-append out.0 out.1,
              take-append out.0 out.1,
              laws.unseal-seal dek iv (p.utf8 user_id) (p.utf8 plaintext),
              laws.from_utf8-utf8 plaintext,
            )
            refl,
      )
