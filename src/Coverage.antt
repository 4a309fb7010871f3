-- ===== src/Coverage.antt =====
-- The crypto-shred coverage score of the declared and the discovered resources: services/pii-coverage.ts.
pub mod Items
pub mod Doubles
pub mod Nearest
pub mod Report
pub mod Score
pub mod Protected
