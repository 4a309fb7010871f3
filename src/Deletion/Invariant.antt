-- ===== src/Deletion/Invariant.antt =====
-- Every step of the deletion service keeps the invariant, so it holds in every world that the service
-- reaches.
use chameleon_vault.Prelude.{
  String, ◌≡◌, refl, sym, ◌∙◌, inl, inr, true, false, Option, none, some, List, [], ◌∷◌, arith,
  Exec, pure, raise, ◌>>◌, find, Bool-cases, Option-cases,
}
use mathlib.Core.Path.{subst}
use mathlib.Core.Option.{some-injective}
use chameleon_vault.Fault.{Fault}
use chameleon_vault.Requests.Types.{
  Status, shred_requested, key_destroyed, cascade_pending, cascade_in_progress, cascade_complete,
  cascade_partial_failure, certificate_issued, Request,
}
use chameleon_vault.Requests.Repository.{get_deletion_request, no_fields}
use chameleon_vault.Deletion.World.{EventType, Job, World, Env, later, requests_of}
use chameleon_vault.Deletion.Handlers.{
  is_valid_transition, transitions, destroy_key, fail_cascade, issue_certificate, entering,
  set_status, shred, or_roll_back, finish, result_of,
}
use chameleon_vault.Deletion.Service.{
  advance_to_certificate, advance_to_failure, complete_cascade, shortcut_to_cascade_complete,
  start_cascade, retry_cascade, handle, advance_request, triggering, Plan, shortcut_to_complete,
  plan_failed, trigger, prepare_cascade_trigger, write_status, start_plan, retry_plan, dispatch,
}
use chameleon_vault.Deletion.Cascade.{
  Outcome, record_outcomes, settle, recover, run_cascade, outcomes, cleanup, sent,
}
use chameleon_vault.Deletion.Keeps.{
  IsSound, Keeps, Keeps-bind, Keeps-then, Keeps-catch, is_issued, set_status-Keeps, claiming-Keeps,
  finish-Keeps, or_roll_back-Keeps, shred-Keeps, update_wipe-Keeps,
}
use chameleon_vault.Deletion.Minting.{Agrees, Owner, issue_certificate-IsSound}

-- A request from which there is a way on is not at CERTIFICATE_ISSUED.
unissued : (old new : Status) → is_valid_transition old new ≡ true → is_issued old ≡ false
unfolding is_valid_transition transitions
unissued certificate_issued new h = ground arith
unissued shred_requested new h = refl
unissued key_destroyed new h = refl
unissued cascade_pending new h = refl
unissued cascade_in_progress new h = refl
unissued cascade_complete new h = refl
unissued cascade_partial_failure new h = refl

-- The handler of a call gets the request that the store has, at a status with a way on.
entering-IsSound :
    (id : String) (new : Status) (handler : Request → Exec Fault World Request) (w : World)
    → ((r : Request)
        → find id (requests_of w) ≡ some r
        → is_issued r.status ≡ false
        → IsSound (handler r w).1)
    → IsSound w
    → IsSound (entering id new handler w).1
unfolding get_deletion_request
entering-IsSound id new handler w k h = elim (Option-cases (find id (requests_of w))) [
  | inl gone ↦ rw (gone, entering) h
  | inr (r, here) ↦ elim (Bool-cases (is_valid_transition r.status new)) [
    | inl valid ↦ rw (here, valid, entering) (k r here (unissued r.status new valid))
    | inr refused ↦ rw (here, refused, entering) h
  ]
]

found-Agrees :
    (id : String) (r : Request) (w : World) → find id (requests_of w) ≡ some r → Agrees id r w
found-Agrees id r w here d there =
    subst (Owner r) (some-injective _ _ (sym here ∙ there)) (refl, refl)

module _ (env : Env) (operation_id id : String) where
  destroy_key-Keeps :
      (r : Request) → is_issued r.status ≡ false → Keeps (destroy_key env operation_id id r)
  unfolding destroy_key
  destroy_key-Keeps r e = claiming-Keeps env id r key_destroyed _ refl (
      Keeps-then (or_roll_back env id r (shred env id r)) _
        (or_roll_back-Keeps env id r (shred env id r) e (shred-Keeps env id r))
        (finish-Keeps env _ id r _ key_destroyed))

  fail_cascade-Keeps :
      (failed : List String) (r : Request) → Keeps (fail_cascade env operation_id failed id r)
  unfolding fail_cascade
  fail_cascade-Keeps failed r =
      claiming-Keeps env id r cascade_partial_failure _ refl
        (finish-Keeps env _ id r _ cascade_partial_failure)

  advance_to_failure-Keeps :
      (failed : List String) → Keeps (advance_to_failure env operation_id failed id)
  unfolding advance_to_failure
  advance_to_failure-Keeps failed w h =
      entering-IsSound id cascade_partial_failure (fail_cascade env operation_id failed id) w
        (λ r _ _. fail_cascade-Keeps failed r w h) h

  advance_to_certificate-Keeps : Keeps (advance_to_certificate env operation_id id)
  unfolding advance_to_certificate
  advance_to_certificate-Keeps w h =
      entering-IsSound id certificate_issued (issue_certificate env operation_id id) w
        (λ r here e.
          issue_certificate-IsSound env operation_id id r w e (found-Agrees id r w here) h)
        h

module _ (env : Env) (operation_id id : String) where
  shortcut-Keeps : Keeps (shortcut_to_cascade_complete env operation_id id)
  unfolding shortcut_to_cascade_complete
  shortcut-Keeps =
      Keeps-then (set_status env id cascade_complete)
        (advance_to_certificate (later env) operation_id id)
        (set_status-Keeps env id cascade_complete refl)
        (advance_to_certificate-Keeps (later env) operation_id id)

  complete_cascade-Keeps : Keeps (complete_cascade env operation_id id)
  unfolding complete_cascade
  complete_cascade-Keeps =
      Keeps-then (set_status env id cascade_complete)
        (advance_to_certificate (later env) operation_id id)
        (set_status-Keeps env id cascade_complete refl)
        (advance_to_certificate-Keeps (later env) operation_id id)

  triggering-Keeps :
      (kind : EventType) (r : Request) (new : Status) (job : Job) (destinations : List String)
      → is_issued new ≡ false
      → Keeps (triggering env kind operation_id id r new job destinations)
  triggering-Keeps kind r new job destinations e = claiming-Keeps env id r new _ e (
      Keeps-bind (finish env _ id r _ new) (λ answer. dispatch job >> pure answer)
        (finish-Keeps env _ id r _ new) (λ answer w h. h))

  start_plan-Keeps : (r : Request) (p : Plan) → Keeps (start_plan env operation_id id r p)
  start_plan-Keeps r shortcut_to_complete = shortcut-Keeps
  start_plan-Keeps r (plan_failed e) = advance_to_failure-Keeps (later env) operation_id id _
  start_plan-Keeps r (trigger job ds) =
      triggering-Keeps EventType.janitor_triggered r cascade_pending job ds refl

  retry_plan-Keeps : (r : Request) (p : Plan) → Keeps (retry_plan env operation_id id r p)
  retry_plan-Keeps r shortcut_to_complete = shortcut-Keeps
  retry_plan-Keeps r (plan_failed e) = λ w h. h
  retry_plan-Keeps r (trigger job ds) =
      triggering-Keeps EventType.cascade_retry_triggered r cascade_in_progress job ds refl

  -- Each case of the switch, for a caller whose copy of the request may be old.
  pub handle-IsSound :
      (failed : List String) (new : Status) (r : Request) (w : World)
      → is_issued r.status ≡ false
      → Agrees id r w
      → IsSound w
      → IsSound (handle env operation_id failed id new r w).1
  unfolding handle write_status start_cascade retry_cascade
  handle-IsSound failed shred_requested r w e own h =
      Keeps-then (set_status env id shred_requested) (pure (result_of r no_fields shred_requested))
        (set_status-Keeps env id shred_requested refl) (λ w h. h) w h
  handle-IsSound failed key_destroyed r w e own h = destroy_key-Keeps env operation_id id r e w h
  handle-IsSound failed cascade_pending r w e own h =
      start_plan-Keeps r (prepare_cascade_trigger env operation_id id r w) w h
  handle-IsSound failed cascade_in_progress r w e own h =
      retry_plan-Keeps r (prepare_cascade_trigger env operation_id id r w) w h
  handle-IsSound failed cascade_complete r w e own h = complete_cascade-Keeps w h
  handle-IsSound failed cascade_partial_failure r w e own h =
      fail_cascade-Keeps env operation_id id failed r w h
  handle-IsSound failed certificate_issued r w e own h =
      issue_certificate-IsSound env operation_id id r w e own h

  pub advance_request-Keeps :
      (failed : List String) (new : Status) → Keeps (advance_request env operation_id failed id new)
  unfolding advance_request
  advance_request-Keeps failed new w h =
      entering-IsSound id new (handle env operation_id failed id new) w
        (λ r here e. handle-IsSound failed new r w e (found-Agrees id r w here) h) h

record_outcomes-IsSound :
    (env : Env) (id : String) (os : List Outcome) (w : World)
    → IsSound w
    → IsSound (record_outcomes env id os w)
unfolding record_outcomes
record_outcomes-IsSound env id [] w h = h
record_outcomes-IsSound env id (o ∷ os) w h =
    record_outcomes-IsSound env id os _ (update_wipe-Keeps env id o.destination _ o.details w h)

settle-Keeps : (env : Env) (job : Job) (os : List Outcome) → Keeps (settle env job os)
unfolding settle
settle-Keeps env job os w h =
    advance_request-Keeps (later env) job.operation_id job.deletion_request_id _ _ _
      (record_outcomes-IsSound env job.deletion_request_id os w h)

recover-IsSound :
    (env : Env) (job : Job) (m : Exec Fault World Request) (w : World)
    → Keeps m
    → IsSound w
    → IsSound (recover env job m w)
unfolding recover
recover-IsSound env job m w k h =
    Keeps-catch m _ k
      (λ e.
        advance_to_failure-Keeps (later (later (later env))) job.operation_id
          job.deletion_request_id _)
      w h

pub run_cascade-IsSound :
    (env : Env) (job : Job) (w : World) → IsSound w → IsSound (run_cascade env job w)
unfolding run_cascade
run_cascade-IsSound env job w h = go env.cleanup_outage
  where
    go :
        (o : Option Fault)
        → IsSound (elim o [
          | some e ↦ recover env job (raise e) w
          | none ↦
              recover env job (settle env job (outcomes env job w)) (sent (cleanup env job w) w)
        ])
    go (some e) = recover-IsSound env job (raise e) w (λ w h. h) h
    go none =
        recover-IsSound env job (settle env job (outcomes env job w)) (sent (cleanup env job w) w)
          (settle-Keeps env job _) h
