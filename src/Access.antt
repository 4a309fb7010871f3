-- ===== src/Access.antt =====
-- Credentials of analysts, auditors and services, and which paths they open: types/analyst-access.ts,
-- gcp/analyst-access-repository.ts, services/analyst-access-service.ts and middleware/auth.ts.
pub mod Types
pub mod Repository
pub mod Service
pub mod Paths
pub mod Auth
pub mod Revocation
pub mod Claims
