-- ===== src/Routes/Registry.antt =====
-- The routes of routes/pii-registry.ts. A resource id of a path is taken as decoded.
pub mod Callers
pub mod Upsert
pub mod Maintain
pub mod Declaring
pub mod Refusing
