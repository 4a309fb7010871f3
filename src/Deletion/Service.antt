-- ===== src/Deletion/Service.antt =====
-- services/deletion-request-service.ts: creating a request, planning its cascade and advancing it. A
-- call that recurses goes at most two levels deep, so the cases are defined from the last one back.
use chameleon_vault.Prelude.{
  String, Bool, true, false, ◌&&◌, not, Option, none, some, List, [], ◌∷◌, ok, Exec, pure, ◌>>=◌,
  ◌>>◌, if◌then◌else◌, map, ◌++◌,
}
use chameleon_vault.Fault.{Fault}
use chameleon_vault.Requests.Types.{
  Status, shred_requested, key_destroyed, cascade_pending, cascade_in_progress, cascade_complete,
  cascade_partial_failure, certificate_issued, Request, WipeStatus, Details,
}
use chameleon_vault.Requests.Repository.{
  create_deletion_request, no_fields, update_janitor_wipe_status, get_deletion_request,
}
use chameleon_vault.Requests.Queries.{get_active_deletion_request_for_user}
use chameleon_vault.Janitor.Service.{create_cleanup_plan, JanitorTask}
use chameleon_vault.Redaction.Service.{plan_redaction, plan_encrypted_copy_deletion, Runner}
use chameleon_vault.Declarations.Types.{PiiRegistryEntry}
use chameleon_vault.Deletion.World.{
  EventType, LineageEvent, Job, World, Env, later, requests_of, keys_of, declarations_of,
  on_requests, tenant_of, record_event, set_requests,
}
use chameleon_vault.Deletion.Handlers.{
  claiming, set_status, finish, event_of, destroy_key, fail_cascade, issue_certificate, entering,
  result_of,
}

pub record Created : Type 0 where
  pub request : Request
  pub already_existed : Bool

abbrev pub created_event : String → String → String → LineageEvent
created_event user_id operation_id tenant_id = record {
  event_type = EventType.shred_requested;
  operation_id = operation_id;
  deletion_request_id = operation_id;
  user_id = user_id;
  tenant_id = tenant_id;
  context = [];
}

-- `createRequest`, once there is no active request.
abbrev pub create_new : Env → String → String → String → Option String → Exec Fault World Created
create_new env user_id operation_id tenant_id requested_by w =
    let out =
      create_deletion_request (env.clock 0) user_id operation_id tenant_id requested_by
        (requests_of w) in
    (record_event env (created_event user_id operation_id tenant_id)
        >> pure (record { request = out.0; already_existed = false }))
      (set_requests out.1 w)

unfoldable pub create_request :
    Env → String → String → String → Option String → Exec Fault World Created
create_request env user_id operation_id tenant_id requested_by w =
    elim (get_active_deletion_request_for_user user_id tenant_id (requests_of w)) [
      | some existing ↦ (ok (record { request = existing; already_existed = true }), w)
      | none ↦ create_new env user_id operation_id tenant_id requested_by w
    ]

-- `advanceRequest(id, 'CERTIFICATE_ISSUED', ...)` and `advanceRequest(id, 'CASCADE_PARTIAL_FAILURE', ...)`
unfoldable pub advance_to_certificate : Env → String → String → Exec Fault World Request
advance_to_certificate env operation_id id =
    entering id certificate_issued (issue_certificate env operation_id id)

unfoldable pub advance_to_failure : Env → String → List String → String → Exec Fault World Request
advance_to_failure env operation_id failed id =
    entering id cascade_partial_failure (fail_cascade env operation_id failed id)

unfoldable pub shortcut_to_cascade_complete : Env → String → String → Exec Fault World Request
shortcut_to_cascade_complete env operation_id id =
    set_status env id cascade_complete >> advance_to_certificate (later env) operation_id id

-- `case 'CASCADE_COMPLETE'`
unfoldable pub complete_cascade : Env → String → String → Exec Fault World Request
complete_cascade env operation_id id =
    set_status env id cascade_complete >> advance_to_certificate (later env) operation_id id

pub data Plan : Type 0 where
  shortcut_to_complete : Plan
  plan_failed : Fault → Plan
  trigger : Job → List String → Plan

abbrev planned_resources : Option Runner → List PiiRegistryEntry → List PiiRegistryEntry
planned_resources none entries = []
planned_resources (some run) entries = entries

abbrev is_empty {ℓ} : {A : Type ℓ} → List A → Bool
is_empty [] = true
is_empty (x ∷ xs) = false

abbrev plan_of : String → Request → String → List JanitorTask → Bool → Bool → Plan
plan_of id r operation_id tasks none_to_redact none_to_delete =
    if is_empty tasks && (none_to_redact && none_to_delete)
    then shortcut_to_complete
    else trigger
        (record {
          deletion_request_id = id;
          user_id = r.user_id;
          tenant_id = tenant_of r;
          operation_id = operation_id;
          redacts = not none_to_redact;
          deletes_copies = not none_to_delete;
        })
        (map (λ t. t.destination) tasks)

unfoldable pub prepare_cascade_trigger : Env → String → String → Request → World → Plan
prepare_cascade_trigger env operation_id id r w = elim env.plan_outage [
  | some e ↦ plan_failed e
  | none ↦
      plan_of id r operation_id
        (create_cleanup_plan (env.clock 2) r.user_id (tenant_of r) (keys_of w))
        (is_empty
          (planned_resources env.redaction (plan_redaction (tenant_of r) (declarations_of w))))
        (is_empty (
          planned_resources env.redaction
            (plan_encrypted_copy_deletion (tenant_of r) (declarations_of w))))
]

-- `afterStatusPersisted?.()`
abbrev pub dispatch : Job → Exec Fault World (Unit {0})
dispatch job w = (ok tt, record w { jobs = w.jobs ++ job ∷ [] })

-- What follows the plan in both cases that start a cascade.
abbrev pub triggering :
    Env
    → EventType
    → String
    → String
    → Request
    → Status
    → Job
    → List String
    → Exec Fault World Request
triggering env kind operation_id id r new job destinations = claiming env id r new (do
  answer ←
      finish env (event_of kind operation_id id r destinations) id r
        (record no_fields { cascade_initiated_at = some (env.clock 3) }) new
  _ ← dispatch job
  pure answer)

-- `case 'CASCADE_PENDING'`, from the plan
abbrev pub start_plan : Env → String → String → Request → Plan → Exec Fault World Request
start_plan env operation_id id r shortcut_to_complete =
    shortcut_to_cascade_complete env operation_id id
start_plan env operation_id id r (plan_failed e) =
    advance_to_failure (later env) operation_id ("internal-error (plan creation)" ∷ []) id
start_plan env operation_id id r (trigger job destinations) =
    triggering env EventType.janitor_triggered operation_id id r cascade_pending job destinations

unfoldable pub start_cascade : Env → String → String → Request → Exec Fault World Request
start_cascade env operation_id id r w =
    start_plan env operation_id id r (prepare_cascade_trigger env operation_id id r w) w

-- `case 'CASCADE_IN_PROGRESS'`, from the plan: a plan that fails leaves the request as it is.
abbrev pub retry_plan : Env → String → String → Request → Plan → Exec Fault World Request
retry_plan env operation_id id r shortcut_to_complete =
    shortcut_to_cascade_complete env operation_id id
retry_plan env operation_id id r (plan_failed e) = pure r
retry_plan env operation_id id r (trigger job destinations) =
    triggering env EventType.cascade_retry_triggered operation_id id r cascade_in_progress job
      destinations

unfoldable pub retry_cascade : Env → String → String → Request → Exec Fault World Request
retry_cascade env operation_id id r w =
    retry_plan env operation_id id r (prepare_cascade_trigger env operation_id id r w) w

-- The write for a status that has no case.
unfoldable pub write_status : Env → String → Request → Status → Exec Fault World Request
write_status env id r new = set_status env id new >> pure (result_of r no_fields new)

-- The `switch` of `advanceRequest`.
unfoldable pub handle :
    Env → String → List String → String → Status → Request → Exec Fault World Request
handle env operation_id failed id shred_requested r = write_status env id r shred_requested
handle env operation_id failed id key_destroyed r = destroy_key env operation_id id r
handle env operation_id failed id cascade_pending r = start_cascade env operation_id id r
handle env operation_id failed id cascade_in_progress r = retry_cascade env operation_id id r
handle env operation_id failed id cascade_complete r = complete_cascade env operation_id id
handle env operation_id failed id cascade_partial_failure r =
    fail_cascade env operation_id failed id r
handle env operation_id failed id certificate_issued r = issue_certificate env operation_id id r

unfoldable pub advance_request :
    Env → String → List String → String → Status → Exec Fault World Request
advance_request env operation_id failed id new =
    entering id new (handle env operation_id failed id new)

unfoldable pub get_request : String → World → Option Request
get_request id w = get_deletion_request id (requests_of w)

unfoldable pub update_wipe :
    Env → String → String → WipeStatus → Details → Exec Fault World (Unit {0})
update_wipe env id destination status details =
    on_requests (update_janitor_wipe_status (env.clock 0) id destination status details)
