-- ===== src/SyncRuns.antt =====
-- The progress of sync runs: types/sync-run.ts and gcp/sync-run-repository.ts.
pub mod Repository
pub mod Progress
