-- ===== src/Routes.antt =====
-- The HTTP routes: what a handler checks, which services it calls and which status it answers.
pub mod Http
pub mod Crypto
pub mod Deletion
pub mod Certificates
pub mod Issued
pub mod Registry
pub mod Shredding
pub mod Tenants
