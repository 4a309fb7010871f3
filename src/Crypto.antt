-- ===== src/Crypto.antt =====
-- crypto/deterministic-aes.ts: AES-256-GCM with an IV from the user id.
pub mod Aes
pub mod RoundTrip
