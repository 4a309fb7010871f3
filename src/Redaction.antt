-- ===== src/Redaction.antt =====
-- What happens to a customer's own tables: services/source-redaction-service.ts.
pub mod Identifiers
pub mod Statements
pub mod Service
pub mod Safety
pub mod Copies
pub mod Scoped
