-- ===== src/Deletion/Cascade.antt =====
-- services/deletion-request-service.ts, `afterStatusPersisted`: the cascade that a call has started.
-- It runs as one step of the model, later than the call that started it.
use chameleon_vault.Prelude.{
  String, Bool, true, false, not, Option, none, some, List, [], ◌∷◌, Exec, raise, if◌then◌else◌,
  map, ◌++◌, catch, best_effort, keep,
}
use chameleon_vault.Fault.{Fault}
use chameleon_vault.Requests.Types.{
  Status, cascade_complete, cascade_partial_failure, Request, WipeStatus, Details,
}
use chameleon_vault.Janitor.Service.{process_cleanup, JanitorTask, TaskStatus, Report}
use chameleon_vault.Redaction.Service.{
  redact_user_in_declared_sources, delete_user_from_encrypted_copies, SourceRedactionResult, Runner,
}
use chameleon_vault.Certificate.Destinations.{redact_destination, encrypted_destination}
use chameleon_vault.Declarations.Registry.{Declarations}
use chameleon_vault.Deletion.World.{Job, World, Env, later, keys_of, declarations_of}
use chameleon_vault.Deletion.Service.{update_wipe, advance_request, advance_to_failure}

-- One outcome to record: a destination, whether it succeeded, and the details.
pub record Outcome : Type 0 where
  pub destination : String
  pub success : Bool
  pub details : Details

abbrev is_complete : TaskStatus → Bool
is_complete TaskStatus.complete = true
is_complete _ = false

abbrev pub janitor_outcome : JanitorTask → Outcome
janitor_outcome t = record {
  destination = t.destination;
  success = is_complete t.status;
  details = record {
    attempts = some t.attempts;
    records_found = t.records_found;
    rows_affected = none;
    error = none;
  };
}

abbrev pub source_outcome : (String → String) → SourceRedactionResult → Outcome
source_outcome label r = record {
  destination = label r.resource_id;
  success = r.success;
  details = record {
    attempts = none;
    records_found = none;
    rows_affected = r.rows_affected;
    error = r.error;
  };
}

-- A service that is not there, or has no resource in the plan, resolves to no results.
abbrev run_if :
    Bool → Option Runner → (Runner → List SourceRedactionResult) → List SourceRedactionResult
run_if false run f = []
run_if true none f = []
run_if true (some run) f = f run

abbrev source_outcomes : Env → Job → Declarations → List Outcome
source_outcomes env job d =
    map (source_outcome redact_destination) (
      run_if job.redacts env.redaction
        λ run. redact_user_in_declared_sources run job.user_id job.tenant_id d)
    ++ map (source_outcome encrypted_destination) (
        run_if job.deletes_copies env.redaction
          λ run. delete_user_from_encrypted_copies run job.user_id job.tenant_id d)

abbrev pub cleanup : Env → Job → World → Report
cleanup env job w =
    process_cleanup (env.clock 0) env.connectors env.accepts job.user_id job.tenant_id (keys_of w)

-- The results of the three services, in the order in which they are recorded.
unfoldable pub outcomes : Env → Job → World → List Outcome
outcomes env job w =
    map janitor_outcome (cleanup env job w).results ++ source_outcomes env job (declarations_of w)

abbrev wipe_status : Bool → WipeStatus
wipe_status true = WipeStatus.succeeded
wipe_status false = WipeStatus.failed

-- The loops; a write that fails is logged and left.
unfoldable pub record_outcomes : Env → String → List Outcome → World → World
record_outcomes env id [] w = w
record_outcomes env id (o ∷ os) w =
    record_outcomes env id os
      (best_effort (update_wipe env id o.destination (wipe_status o.success) o.details) w)

abbrev pub has_failed : Outcome → Bool
has_failed o = not o.success

abbrev is_empty : List Outcome → Bool
is_empty [] = true
is_empty (o ∷ os) = false

abbrev pub next_status : List Outcome → Status
next_status os = if is_empty (keep has_failed os) then cascade_complete else cascade_partial_failure

abbrev pub failed_destinations : List Outcome → List String
failed_destinations os = map (λ o. o.destination) (keep has_failed os)

-- The `.then`: the outcomes are recorded, and the request is advanced.
unfoldable pub settle : Env → Job → List Outcome → Exec Fault World Request
settle env job os w =
    advance_request (later env) job.operation_id (failed_destinations os) job.deletion_request_id
      (next_status os) (record_outcomes env job.deletion_request_id os w)

-- The `.catch`: the request is forced into a visible failure, if that is possible.
unfoldable pub recover : Env → Job → Exec Fault World Request → World → World
recover env job m w =
    best_effort
      (catch m λ e.
        advance_to_failure (later (later (later env))) job.operation_id ("internal-error" ∷ [])
          job.deletion_request_id)
      w

abbrev pub sent : Report → World → World
sent report w = record w {
  wipe_events = w.wipe_events ++ report.events;
  dead_letters = w.dead_letters ++ report.dead_letters;
}

unfoldable pub run_cascade : Env → Job → World → World
run_cascade env job w = elim env.cleanup_outage [
  | some e ↦ recover env job (raise e) w
  | none ↦ recover env job (settle env job (outcomes env job w)) (sent (cleanup env job w) w)
]
