-- ===== src/Keys.antt =====
-- The key registry: src/gcp/firestore-registry.ts.
pub mod Registry
pub mod Shredding
pub mod Rotation
pub mod Isolation
pub mod Keyring
pub mod Refinement
