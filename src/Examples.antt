-- ===== src/Examples.antt =====
-- Sample stores and services, and the theorems applied to them.
pub mod Data
pub mod Access
pub mod Ciphers
pub mod Copies
pub mod SigningKeys
pub mod Declared
pub mod Erasure
pub mod Keyrings
pub mod Registry
pub mod Routes
pub mod Runs
pub mod Stores
pub mod Certificates
pub mod Cascades
