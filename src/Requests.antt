-- ===== src/Requests.antt =====
-- The deletion requests: src/types/deletion-request.ts and src/gcp/deletion-request-repository.ts.
pub mod Types
pub mod Repository
pub mod Queries
pub mod Claim
pub mod Wipes
