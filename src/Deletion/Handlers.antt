-- ===== src/Deletion/Handlers.antt =====
-- services/deletion-request-service.ts: the transition table, and the cases of `advanceRequest` that
-- change a request to KEY_DESTROYED, CASCADE_PARTIAL_FAILURE or CERTIFICATE_ISSUED. `r` is the request
-- as the caller read it, which another caller may have moved on since.
use chameleon_vault.Prelude.{
  String, Bool, Option, none, some, List, [], ◌∷◌, ok, err, Exec, pure, raise, catch, ◌>>=◌, ◌>>◌,
  if◌then◌else◌,
}
use chameleon_vault.Fault.{Fault, request_not_found, invalid_transition}
use chameleon_vault.Requests.Types.{
  Status, shred_requested, key_destroyed, cascade_pending, cascade_in_progress, cascade_complete,
  cascade_partial_failure, certificate_issued, Request,
}
use chameleon_vault.Requests.Repository.{
  is_allowed, claim_transition, Claim, claimed, lost, update_deletion_request_status,
  update_deletion_request_fields, UpdateFields, no_fields, spread_fields, get_deletion_request,
}
use chameleon_vault.Keys.Registry.{shred_key_for_user}
use chameleon_vault.Certificate.Service.{issue_and_store_certificate, Issued}
use chameleon_vault.Deletion.World.{
  EventType, LineageEvent, World, Env, requests_of, keys_of, set_keys, on_requests, on_vault,
  tenant_of, record_event,
}

-- The table `transitions`.
unfoldable pub transitions : Status → List Status
transitions shred_requested = key_destroyed ∷ cascade_partial_failure ∷ []
transitions key_destroyed = cascade_pending ∷ cascade_partial_failure ∷ []
transitions cascade_pending = cascade_in_progress ∷ cascade_complete ∷ cascade_partial_failure ∷ []
transitions cascade_in_progress = cascade_complete ∷ cascade_partial_failure ∷ []
transitions cascade_partial_failure = cascade_in_progress ∷ []
transitions cascade_complete = certificate_issued ∷ cascade_partial_failure ∷ []
transitions certificate_issued = []

unfoldable pub is_valid_transition : Status → Status → Bool
is_valid_transition current new = is_allowed new (transitions current)

abbrev won : Claim → Option Request
won claimed = none
won (lost current) = some current

-- `claimOrLose`
unfoldable pub claim_or_lose : Env → String → Request → Status → Exec Fault World (Option Request)
claim_or_lose env id r new = do
  c ← on_requests (claim_transition (env.clock 0) id (r.status ∷ []) new)
  pure (won c)

-- `const lost = await claimOrLose(); if (lost) return lost; ...`
abbrev pub unless_lost : Exec Fault World Request → Option Request → Exec Fault World Request
unless_lost body none = body
unless_lost body (some current) = pure current

abbrev pub claiming :
    Env → String → Request → Status → Exec Fault World Request → Exec Fault World Request
claiming env id r new body = claim_or_lose env id r new >>= unless_lost body

abbrev pub set_status : Env → String → Status → Exec Fault World (Unit {0})
set_status env id s = on_requests (update_deletion_request_status (env.clock 1) id s no_fields)

abbrev pub set_fields : String → UpdateFields → Exec Fault World (Unit {0})
set_fields id f = on_requests (update_deletion_request_fields id f)

-- `catch (err) { updateDeletionRequestStatus(id, request.status, {}); throw err; }`
abbrev pub or_roll_back :
    {A : Type 0} → Env → String → Request → Exec Fault World A → Exec Fault World A
or_roll_back env id r m = catch m λ e. set_status env id r.status >> raise e

-- `{ ...request, ...updateFields, status: newStatus }`
abbrev pub result_of : Request → UpdateFields → Status → Request
result_of r f s = record (spread_fields f r) { status = s }

abbrev pub event_of : EventType → String → String → Request → List String → LineageEvent
event_of kind operation_id id r context = record {
  event_type = kind;
  operation_id = operation_id;
  deletion_request_id = id;
  user_id = r.user_id;
  tenant_id = tenant_of r;
  context = context;
}

abbrev pub shred : Env → String → Request → Exec Fault World (Unit {0})
shred env id r w = elim env.shred_outage [
  | some e ↦ (err e, w)
  | none ↦ (
    ok tt,
    set_keys (shred_key_for_user (env.clock 2) r.user_id (tenant_of r) (some id) (keys_of w)) w,
  )
]

-- The event, the fields, and the answer that end a case.
abbrev pub finish :
    Env → LineageEvent → String → Request → UpdateFields → Status → Exec Fault World Request
finish env event id r f s = do
  _ ← record_event env event
  _ ← set_fields id f
  pure (result_of r f s)

-- `case 'KEY_DESTROYED'`
unfoldable pub destroy_key : Env → String → String → Request → Exec Fault World Request
destroy_key env operation_id id r = claiming env id r key_destroyed (
    or_roll_back env id r (shred env id r)
    >> finish env (event_of EventType.key_shredded operation_id id r []) id r
        (record no_fields { key_destroyed_at = some (env.clock 3) }) key_destroyed)

-- `case 'CASCADE_PARTIAL_FAILURE'`
unfoldable pub fail_cascade :
    Env → String → List String → String → Request → Exec Fault World Request
fail_cascade env operation_id failed id r = claiming env id r cascade_partial_failure (
    finish env (event_of EventType.cascade_partial_failure operation_id id r failed) id r no_fields
      cascade_partial_failure)

abbrev pub certificate_fields : Env → Issued → UpdateFields
certificate_fields env i = record no_fields {
  certificate_issued_at = some (env.clock 3);
  certificate_gcs_path = some i.gcs_path;
}

abbrev pub finish_certificate : Env → String → String → Request → Issued → Exec Fault World Request
finish_certificate env operation_id id r i =
    finish env (event_of EventType.certificate_issued operation_id id r (i.gcs_path ∷ [])) id r
      (certificate_fields env i) certificate_issued

abbrev pub mint : Env → Request → Exec Fault World Issued
mint env r =
    on_vault (issue_and_store_certificate env.issuer r.user_id r.deletion_request_id (tenant_of r))

-- `case 'CERTIFICATE_ISSUED'`
unfoldable pub issue_certificate : Env → String → String → Request → Exec Fault World Request
issue_certificate env operation_id id r =
    claiming env id r certificate_issued
      (or_roll_back env id r (mint env r) >>= finish_certificate env operation_id id r)

-- The start of `advanceRequest`: the read, and the test of the transition.
abbrev pub entering :
    String → Status → (Request → Exec Fault World Request) → Exec Fault World Request
entering id new handler w = elim (get_deletion_request id (requests_of w)) [
  | none ↦ (err (request_not_found id), w)
  | some r ↦
      if is_valid_transition r.status new
      then handler r w
      else (err (invalid_transition r.status new), w)
]
