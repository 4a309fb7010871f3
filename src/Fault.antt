-- ===== src/Fault.antt =====
-- What a method throws, one constructor for each `throw` or rejected promise that is modelled.
use chameleon_vault.Prelude.{String}
use chameleon_vault.Requests.Types.{Status}

pub data Fault : Type 0 where
  -- deletion-request-service.ts and the repositories
  request_not_found : String → Fault
  invalid_transition : Status → Status → Fault
  -- firestore-registry.ts
  key_not_found : Fault
  key_is_shredded : Fault
  -- certificate-signer/sign.ts and certificate-service.ts
  key_not_shredded : String → Fault
  cascade_not_complete : String → Fault
  -- pii-registry-service.ts
  immutable_owner : Fault
  missing_tenant : Fault
  -- a rejected call of Firestore, Cloud KMS, Cloud Storage or BigQuery
  outage : String → Fault
