-- ===== src/Routes/Crypto.antt =====
-- routes/crypto.ts: generating, rotating and shredding keys, encrypting and decrypting with them.
pub mod Vault
pub mod Generate
pub mod Cipher
pub mod Status
pub mod Tagged
pub mod RoundTrip
