-- ===== src/Janitor/Service.antt =====
-- services/janitor.ts. What a connector answers to its n-th call is a parameter; a thrown error is an
-- answer too, as the `catch` makes it one. Waiting between the attempts changes no state.
use chameleon_vault.Prelude.{
  ℕ, zero, suc, String, Bool, true, false, Option, none, some, List, [], ◌∷◌, ◌++◌, map, keep,
  if◌then◌else◌, or_default,
}
use chameleon_vault.Keys.Registry.{Keys, get_key_status, KeyStatus}
use chameleon_vault.Janitor.Connectors.{WipeResult}
use chameleon_vault.Janitor.Names.{has_connector}

-- types/janitor.ts
pub data TaskStatus : Type 0 where
  pending : TaskStatus
  queued : TaskStatus
  complete : TaskStatus
  failed : TaskStatus

pub record JanitorTask : Type 0 where
  pub user_id : String
  pub destination : String
  pub status : TaskStatus
  pub attempts : ℕ
  pub records_found : Option ℕ

abbrev pub planned : String → String → JanitorTask
planned user_id destination = record {
  user_id = user_id;
  destination = destination;
  status = pending;
  attempts = 0;
  records_found = none;
}

abbrev pub destinations_of : Option KeyStatus → List String
destinations_of none = []
destinations_of (some s) = or_default s.destinations []

unfoldable pub create_cleanup_plan : ℕ → String → String → Keys → List JanitorTask
create_cleanup_plan now user_id tenant_id m =
    map (planned user_id)
      (keep has_connector (destinations_of (get_key_status now user_id tenant_id m)))

-- What one call of `connector.wipe` comes to.
pub data Answer : Type 0 where
  responded : WipeResult → Answer
  threw : String → Answer

-- The `.catch` of the call: a thrown error is a failed response that does not say whether to retry.
abbrev pub response : String → Answer → WipeResult
response destination (responded r) = r
response destination (threw message) = record {
  success = false;
  destination = destination;
  error = some message;
  retryable = none;
  records_found = none;
}

abbrev pub max_retries : ℕ
max_retries = 3

-- `response.retryable ?? true`
abbrev pub is_retryable : WipeResult → Bool
is_retryable r = or_default r.retryable true

pub record Tried : Type 0 where
  pub success : Bool
  pub attempts : ℕ
  pub last_error : String
  pub records_found : Option ℕ

abbrev error_text : WipeResult → String
error_text r = or_default r.error "Unknown error"

abbrev gave_up : ℕ → String → Tried
gave_up n message = record {
  success = false;
  attempts = n;
  last_error = message;
  records_found = none;
}

-- The `while` loop with `left` attempts to go after `done` of them.
unfoldable pub retry : String → (ℕ → Answer) → (left done : ℕ) → String → Tried
retry destination wipe zero done last = gave_up done last
retry destination wipe (suc left) done last =
    let r = response destination (wipe (suc done)) in
    let again = retry destination wipe left (suc done) (error_text r) in
    if r.success
    then record {
      success = true;
      attempts = suc done;
      last_error = last;
      records_found = r.records_found;
    }
    else if is_retryable r
    then again
    else gave_up (suc done) (error_text r)

pub data EventKind : Type 0 where
  wipe_started : EventKind
  wipe_completed : EventKind

pub record Event : Type 0 where
  pub kind : EventKind
  pub destination : String
  -- the number of the attempt, of a start
  pub attempt : ℕ

-- A message on the dead letter topic.
pub record DeadLetter : Type 0 where
  pub user_id : String
  pub destination : String
  pub error : String

-- What a run of the janitor has done.
pub record Report : Type 0 where
  pub results : List JanitorTask
  pub events : List Event
  pub dead_letters : List DeadLetter

started : String → ℕ → List Event
started destination zero = []
started destination (suc n) =
    started destination n
    ++ record { kind = wipe_started; destination = destination; attempt = suc n } ∷ []

abbrev pub final_status : Bool → TaskStatus
final_status true = complete
final_status false = failed

-- The letter of a task that failed.
abbrev pub letters : JanitorTask → Tried → List DeadLetter
letters task t =
    if t.success
    then []
    else record { user_id = task.user_id; destination = task.destination; error = t.last_error }
      ∷ []

-- The body of the loop over the tasks, for a destination that has a connector; without one the task
-- is reported as failed, with no attempt. A letter that the topic does not accept is logged and lost.
unfoldable pub process_task :
    (String → Option (ℕ → Answer)) → (DeadLetter → Bool) → JanitorTask → Report
unfolding started
process_task connectors accepts task = elim (connectors task.destination) [
  | none ↦ record { results = record task { status = failed } ∷ []; events = []; dead_letters = [] }
  | some wipe ↦
      let t = retry task.destination wipe max_retries 0 "" in
      record {
        results =
            record task {
              status = final_status t.success;
              attempts = t.attempts;
              records_found = t.records_found;
            }
            ∷ [];
        events =
            started task.destination t.attempts
            ++ record {
              kind = wipe_completed;
              destination = task.destination;
              attempt = t.attempts;
            }
              ∷ [];
        dead_letters = keep accepts (letters task t);
      }
]

-- The loop over the tasks.
unfoldable pub process_tasks :
    (String → Option (ℕ → Answer)) → (DeadLetter → Bool) → List JanitorTask → Report
process_tasks connectors accepts [] = record { results = []; events = []; dead_letters = [] }
process_tasks connectors accepts (task ∷ tasks) =
    let here = process_task connectors accepts task in
    let later = process_tasks connectors accepts tasks in
    record {
      results = here.results ++ later.results;
      events = here.events ++ later.events;
      dead_letters = here.dead_letters ++ later.dead_letters;
    }

unfoldable pub process_cleanup :
    ℕ → (String → Option (ℕ → Answer)) → (DeadLetter → Bool) → String → String → Keys → Report
process_cleanup now connectors accepts user_id tenant_id m =
    process_tasks connectors accepts (create_cleanup_plan now user_id tenant_id m)
