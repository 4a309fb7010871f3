-- ===== src/Declarations.antt =====
-- The declared PII resources: src/types/pii-registry.ts and the services over them.
pub mod Types
pub mod Strategies
pub mod Registry
pub mod Forms
pub mod Policy
pub mod Watermark
