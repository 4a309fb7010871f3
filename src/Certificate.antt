-- ===== src/Certificate.antt =====
-- The Certificates of Destruction: the chain, the signer and the service.
pub mod Chain
pub mod Continuity
pub mod Claims
pub mod Destinations
pub mod Bucket
pub mod Storage
pub mod Signer
pub mod Soundness
pub mod Exceptions
pub mod Service
pub mod Retrieval
pub mod Issuance
pub mod SigningKeys
pub mod Published
pub mod KeyRotation
