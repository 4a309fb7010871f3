-- ===== src/Declarations/Forms.antt =====
-- services/pii-registry-validation.ts: what a user submits to declare a resource, the errors that are
-- collected, and the entry that is built.
pub mod Input
pub mod Errors
pub mod Build
pub mod Clean
pub mod Accepted
