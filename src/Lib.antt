-- ===== src/Lib.antt =====
-- The Chameleon Key Vault: crypto-shredding of a user's key, the cascade that wipes the user from the
-- connected systems, and the Certificate of Destruction that is issued once it is done.
--
-- The parts, each with the files that model it; the paths are those of the repository.
--   Requests      the deletion requests and their queries: src/gcp/deletion-request-repository.ts
--   Keys          the key registry: src/gcp/firestore-registry.ts
--   Declarations  the declared PII resources: src/services/pii-registry-service.ts and
--                 src/gcp/pii-registry-declaration-repository.ts; the forms that declare them:
--                 src/services/pii-registry-validation.ts
--   Janitor       the connectors and the retries: src/services/janitor.ts, src/services/connectors
--   Redaction     the statements on customers' tables: src/services/source-redaction-service.ts
--   Certificate   the signer, the chain, the bucket and the service: src/certificate-signer/sign.ts,
--                 src/gcp/certificate-chain-repository.ts, src/gcp/gcs-client.ts,
--                 src/services/certificate-service.ts
--                 `Certificate.SigningKeys` has the versions of the signing key and their caches
--   Deletion      the life of a request: src/services/deletion-request-service.ts
--   Access        credentials and the paths they open: src/middleware/auth.ts,
--                 src/services/analyst-access-service.ts and src/gcp/analyst-access-repository.ts
--   Coverage      how much of the declared data a shred reaches: src/services/pii-coverage.ts
--                 `Coverage.Doubles` has the doubles that its score is computed with
--   Crypto        the deterministic AES: src/crypto/deterministic-aes.ts
--   Routes        handlers: src/routes/crypto.ts, src/routes/deletion-requests.ts,
--                 src/routes/pii-registry.ts, src/routes/certificate.ts, src/routes/auditor-verify.ts
--                 and the schemas of src/middleware/validation.ts
--   SyncRuns      the progress of sync runs: src/gcp/sync-run-repository.ts
--   Prelude       lists, documents, results and decimal texts; Fault lists what a method throws
--   Examples      sample stores, and the theorems applied to them
--
-- A method is a function of the same name, in snake case. A Firestore collection is a list of documents
-- by their ids, in the order of their first writes; a method that writes takes the collection and
-- answers the new one, with a result or a fault. What was written before a fault stays. A Firestore
-- transaction is one step. Dates are numbers of milliseconds, and the readings of the clock, the
-- outages and the answers of other services are parameters (`Env`, `IssuerEnv`, `SignerEnv`). In `Deletion`
-- Firestore answers every call on a request: a rejected write there, a rollback say, is not modelled.
--
-- `Access` and `SyncRuns` stand alone, and `Coverage` needs `Declarations` only. `Deletion` stands on
-- the core: the cases of `advanceRequest` claim a transition in `Requests`, shred in `Keys`, plan with
-- `Janitor` and `Redaction` and issue with `Certificate`, whose signer reads the requests, keys and
-- declarations itself. A cascade that a call has started is a step of its own,
-- `run_cascade`. `advanceRequest` calls itself at most twice in a row, so its cases are defined from the
-- last one back and need no fuel; every loop is a recursion on a list or on the attempts left. The scale
-- of a double is sought among 128 powers of two, which is enough for weights below 2 ^ 53.
--
-- A handler of `Routes` answers a status with a body, or a status of an error; it takes the header with
-- the tenant and the parsed body, and calls `Keys`, `Crypto`, `Deletion`, `Certificate`, `Declarations`,
-- `Coverage` and, when a resource is declared, `Redaction.Copies`. What Joi does itself, such as the test
-- on UUIDs, is a parameter, and so is `decodeURIComponent`. The cipher, the hash and the encodings of Node
-- are the record `Primitives`, and what Node documents of them is `IsAead`.
--
-- Not modelled: logging, rate limits, the texts of errors, the encodings of a token, hashes and
-- signatures (parameters), the cache of key fingerprints, and the parts of the service around this core,
-- such as decrypted views and the scans for discovery.
pub mod Prelude
pub mod Fault
pub mod Requests
pub mod Keys
pub mod Declarations
pub mod Janitor
pub mod Redaction
pub mod Access
pub mod SyncRuns
pub mod Coverage
pub mod Crypto
pub mod Routes
pub mod Certificate
pub mod Deletion
pub mod Examples
