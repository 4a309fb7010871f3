-- ===== src/Janitor.antt =====
-- The wipes of a user's data in the connected systems: src/services/janitor.ts, src/services/registry.ts
-- and src/services/connectors/.
pub mod Connectors
pub mod Names
pub mod Service
pub mod Retries
pub mod Cleanup
