-- ===== src/Deletion.antt =====
-- The life of a deletion request: services/deletion-request-service.ts.
pub mod World
pub mod Handlers
pub mod Service
pub mod Cascade
pub mod Keeps
pub mod Minting
pub mod Invariant
pub mod Reachable
pub mod Refusals
pub mod Withheld
pub mod Erasing
