-- ===== src/Certificate/Signer.antt =====
-- certificate-signer/sign.ts and its reads, certificate-signer/firestore-client.ts. The signer reads
-- the collections itself. A read may reject, and Cloud KMS may; `clock n` is the n-th reading of the
-- clock in a call, where the n-th wipe has the n-th reading.
use Prim.Native.String
use chameleon_vault.Prelude.{
  ℕ, suc, ◌+◌, ◌/◌, String, Bool, true, false, ◌&&◌, ◌||◌, Option, none, some, List, [], ◌∷◌, ◌++◌,
  map, nat_beq, leb, if◌then◌else◌, or_default, Docs, find, values, length, keep, Result, ok, err,
  and_then,
}
use chameleon_vault.Prelude.Decimal.{show}
use chameleon_vault.Fault.{Fault, key_not_shredded, cascade_not_complete}
use chameleon_vault.Requests.Types.{
  Status, cascade_complete, certificate_issued, WipeStatus, Wipe, Request,
}
use chameleon_vault.Requests.Repository.{Requests, is_allowed}
use chameleon_vault.Requests.Queries.{is_text, get_latest_completed_deletion_request_for_user}
use chameleon_vault.Keys.Registry.{Keys, KeyStatus, KeyState, doc_id, is_shredded, key_status_of}
use chameleon_vault.Declarations.Types.{PiiRegistryEntry, SourceRedactionStrategy}
use chameleon_vault.Declarations.Strategies.{has_source_redaction_strategy}
use chameleon_vault.Certificate.Claims.{
  LineageStatus, CertificateLineageItem, ExceptionStrategy, CertificateBackupImmunityItem,
  DestructionStatus, DestructionCertificateClaims, time_travel_ceiling_ms,
}
use chameleon_vault.Certificate.Destinations.{parse_source_redaction_destination}

-- The three collections that the signer reads.
pub record Evidence : Type 0 where
  pub requests : Requests
  pub keys : Keys
  pub declarations : Docs PiiRegistryEntry

-- How the services around the signer behave in a call: a rejection, or an answer.
pub record SignerEnv : Type 0 where
  pub clock : ℕ → ℕ
  pub key_outage : Option Fault
  pub request_outage : Option Fault
  pub registry_outage : Option Fault
  pub fingerprint : Result Fault String

abbrev pub read {ℓ} : {A : Type ℓ} → Option Fault → A → Result Fault A
read none a = ok a
read (some e) a = err e

-- `getKeyStatus`
unfoldable pub signer_key_status : ℕ → String → String → Keys → Option KeyStatus
signer_key_status now user_id tenant_id m = elim (find (doc_id tenant_id user_id) m) [
  | none ↦ none
  | some k ↦ some (key_status_of now k)
]

-- `getDeletionRequest` or, without an id, `getLatestCompletedDeletionRequestForUser`
unfoldable pub signer_request : Option String → String → String → Requests → Option Request
signer_request (some id) user_id tenant_id m = find id m
signer_request none user_id tenant_id m =
    get_latest_completed_deletion_request_for_user user_id tenant_id m

abbrev pub of_tenant : String → PiiRegistryEntry → Bool
of_tenant tenant_id e = is_text e.tenant_id tenant_id

unfoldable pub get_manual_registry_entries_for_tenant :
    String → Docs PiiRegistryEntry → List PiiRegistryEntry
get_manual_registry_entries_for_tenant tenant_id m = keep (of_tenant tenant_id) (values m)

unfoldable pub assert_key_shredded : String → Option KeyStatus → Result Fault KeyStatus
assert_key_shredded user_id none = err (key_not_shredded user_id)
assert_key_shredded user_id (some k) =
    if is_shredded k.status then ok k else err (key_not_shredded user_id)

abbrev pub completed : List Status
completed = cascade_complete ∷ certificate_issued ∷ []

unfoldable pub assert_cascade_complete : String → Option Request → Result Fault Request
assert_cascade_complete user_id none = err (cascade_not_complete user_id)
assert_cascade_complete user_id (some r) =
    if is_allowed r.status completed then ok r else err (cascade_not_complete user_id)

abbrev pub has_succeeded : WipeStatus → Bool
has_succeeded WipeStatus.succeeded = true
has_succeeded _ = false

abbrev pub succeeded : Wipe → Bool
succeeded w = has_succeeded w.status

-- `count === 0`
abbrev is_zero : Option ℕ → Bool
is_zero none = false
is_zero (some n) = nat_beq n 0

-- `recordsFound === 0 || rowsAffected === 0`
abbrev pub found_nothing : Wipe → Bool
found_nothing w = is_zero w.details.records_found || is_zero w.details.rows_affected

abbrev pub lineage_item : Wipe → CertificateLineageItem
lineage_item w = record {
  system = w.destination;
  status = if found_nothing w then LineageStatus.confirmed_absent else LineageStatus.erased;
  timestamp = w.updated_at;
}

unfoldable pub lineage_summary_of : List Wipe → List CertificateLineageItem
lineage_summary_of wipes = map lineage_item (keep succeeded wipes)

-- `Date.now() - redactedAt >= TIME_TRAVEL_CEILING_MS`; a date in the future has not elapsed.
abbrev pub has_elapsed : ℕ → ℕ → Bool
has_elapsed now redacted_at = leb (redacted_at + time_travel_ceiling_ms) now

-- The exception for a wipe of this resource.
abbrev pub wipe_exception : ℕ → ℕ → String × ExceptionStrategy → CertificateBackupImmunityItem
wipe_exception now at (resource, ExceptionStrategy.encrypted_copy) = record {
  resource_id = resource;
  strategy = ExceptionStrategy.encrypted_copy;
  backup_immune = true;
  redacted_at = some at;
  immune_as_of = none;
}
wipe_exception now at (resource, _) = record {
  resource_id = resource;
  strategy = ExceptionStrategy.redact_in_place;
  backup_immune = has_elapsed now at;
  redacted_at = some at;
  immune_as_of = if has_elapsed now at then none else some (at + time_travel_ceiling_ms);
}

-- The body of the loop over the wipes, as the items that it pushes.
unfoldable pub exceptions_of : ℕ → Wipe → List CertificateBackupImmunityItem
exceptions_of now w =
    if succeeded w && (if found_nothing w then false else true)
    then elim (parse_source_redaction_destination w.destination) [
      | none ↦ []
      | some parsed ↦ wipe_exception now w.updated_at parsed ∷ []
    ]
    else []

unfoldable pub wipe_exceptions : (ℕ → ℕ) → ℕ → List Wipe → List CertificateBackupImmunityItem
wipe_exceptions clock n [] = []
wipe_exceptions clock n (w ∷ ws) = exceptions_of (clock n) w ++ wipe_exceptions clock (suc n) ws

abbrev pub has_shadow_copy : PiiRegistryEntry → Bool
has_shadow_copy e = has_source_redaction_strategy e SourceRedactionStrategy.shadow_copy

abbrev pub shadow_exception : PiiRegistryEntry → CertificateBackupImmunityItem
shadow_exception e = record {
  resource_id = e.resource_id;
  strategy = ExceptionStrategy.shadow_copy;
  backup_immune = false;
  redacted_at = none;
  immune_as_of = none;
}

unfoldable pub shadow_exceptions : List PiiRegistryEntry → List CertificateBackupImmunityItem
shadow_exceptions entries = map shadow_exception (keep has_shadow_copy entries)

abbrev pub destruction_status : KeyState → DestructionStatus
destruction_status s =
    if is_shredded s then DestructionStatus.complete else DestructionStatus.pending

-- The returned literal.
abbrev pub claims_of :
    (ℕ → ℕ)
    → String
    → String
    → KeyStatus
    → Request
    → List PiiRegistryEntry
    → String
    → List String
    → List String
    → DestructionCertificateClaims
claims_of clock user_id tenant_id k r entries fingerprint ghosts known =
    let n = length r.janitor_wipes in
    record {
      sub = user_id;
      tenant_id = tenant_id;
      key_destruction_status = destruction_status k.status;
      iat = clock n / 1000;
      jti = String.◌++◌ "cert_" (String.◌++◌ user_id (String.◌++◌ "_" (show (clock (n + 1)))));
      shred_date = or_default k.shred_at (clock (n + 2));
      key_fingerprint = fingerprint;
      lineage_summary = lineage_summary_of r.janitor_wipes;
      source_redaction_exceptions =
          wipe_exceptions clock 0 r.janitor_wipes ++ shadow_exceptions entries;
      lineage_coverage = record {
        destinations_checked = n;
        destinations_succeeded = length (keep succeeded r.janitor_wipes);
        known_destination_types = known;
      };
      ghost_data_summary = ghosts;
    }

unfoldable pub generate_claims :
    SignerEnv
    → String
    → String
    → Option String
    → List String
    → List String
    → Evidence
    → Result Fault DestructionCertificateClaims
generate_claims env user_id tenant_id request ghosts known s =
    and_then (read env.key_outage (signer_key_status (env.clock 0) user_id tenant_id s.keys)) λ k?.
      and_then (read env.request_outage (signer_request request user_id tenant_id s.requests)) λ r?.
        and_then (assert_key_shredded user_id k?) λ k.
          and_then (assert_cascade_complete user_id r?) λ r.
            and_then
              (read env.registry_outage
                (get_manual_registry_entries_for_tenant tenant_id s.declarations))
              λ entries. and_then env.fingerprint λ fingerprint.
                ok (claims_of env.clock user_id tenant_id k r entries fingerprint ghosts known)
