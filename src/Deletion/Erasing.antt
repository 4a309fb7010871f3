-- ===== src/Deletion/Erasing.antt =====
-- Destroying a key: the key document of the request's user is shredded, and what follows leaves it so.
use chameleon_vault.Prelude.{
  String, ◌≡◌, refl, ap, ◌∙◌, inl, inr, Bool, true, false, Option, none, some, List, [], ◌∷◌, ◌++◌,
  ok, err, Result, Exec, pure, raise, ◌>>=◌, ◌>>◌, handle_err, bind-keeps, find, put, find-put_self,
  or_default, if◌then◌else◌, Bool-cases, Option-cases, follow,
}
use chameleon_vault.Fault.{Fault}
use chameleon_vault.Requests.Types.{
  Status, shred_requested, key_destroyed, cascade_pending, cascade_complete,
  cascade_partial_failure, certificate_issued, Request,
}
use chameleon_vault.Requests.Repository.{
  is_allowed, claim_transition, UpdateFields, no_fields, get_deletion_request, enter_status,
}
use chameleon_vault.Keys.Registry.{doc_id, shred_fields, empty_key, shred_key_for_user}
use chameleon_vault.Certificate.Issuance.{issue-evidence}
use chameleon_vault.Deletion.World.{
  EventType, LineageEvent, World, Env, later, requests_of, keys_of, set_requests, set_keys,
  on_requests, tenant_of, record_event,
}
use chameleon_vault.Deletion.Handlers.{
  is_valid_transition, transitions, claim_or_lose, unless_lost, claiming, set_status, set_fields,
  or_roll_back, result_of, event_of, shred, finish, destroy_key, fail_cascade, certificate_fields,
  finish_certificate, mint, issue_certificate, entering,
}
use chameleon_vault.Deletion.Service.{
  advance_request, handle, start_cascade, start_plan, Plan, shortcut_to_complete, plan_failed,
  trigger, prepare_cascade_trigger, dispatch, shortcut_to_cascade_complete, advance_to_certificate,
  advance_to_failure,
}
use chameleon_vault.Deletion.Keeps.{Shredded}

abbrev pub KeepsKeys : {A : Type 0} → Exec Fault World A → Type 0
KeepsKeys m = (w : World) → keys_of (m w).1 ≡ keys_of w

pub record_event-KeepsKeys : (env : Env) (event : LineageEvent) → KeepsKeys (record_event env event)
record_event-KeepsKeys env event w = go env.lineage_up
  where
    go :
        (b : Bool)
        → keys_of (if b then record w { lineage = w.lineage ++ event ∷ [] } else w) ≡ keys_of w
    go true = refl
    go false = refl

finish-KeepsKeys :
    (env : Env) (event : LineageEvent) (id : String) (r : Request) (f : UpdateFields) (s : Status)
    → KeepsKeys (finish env event id r f s)
finish-KeepsKeys env event id r f s w =
    bind-keeps keys_of (record_event env event) (λ _. set_fields id f >>= λ _. answer) w
      (record_event-KeepsKeys env event w)
      (λ _ t. bind-keeps keys_of (set_fields id f) (λ _. answer) t refl (λ _ _. refl))
  where
    answer : Exec Fault World Request
    answer = pure (result_of r f s)

claiming-KeepsKeys :
    (env : Env) (id : String) (r : Request) (new : Status) (body : Exec Fault World Request)
    → KeepsKeys body
    → KeepsKeys (claiming env id r new body)
unfolding claim_or_lose
claiming-KeepsKeys env id r new body k w =
    bind-keeps keys_of (claim_or_lose env id r new) (unless_lost body) w
      (bind-keeps keys_of (on_requests (claim_transition (env.clock 0) id (r.status ∷ []) new)) _ w
        refl (λ _ _. refl))
      go
  where
    go : (o : Option Request) (t : World) → keys_of (unless_lost body o t).1 ≡ keys_of t
    go none t = k t
    go (some current) t = refl

or_roll_back-KeepsKeys :
    {A : Type 0} (env : Env) (id : String) (r : Request) (m : Exec Fault World A)
    → KeepsKeys m
    → KeepsKeys (or_roll_back env id r m)
or_roll_back-KeepsKeys {A = A} env id r m k w = go (m w) (k w)
  where
    go :
        (p : Result Fault A × World)
        → keys_of p.1 ≡ keys_of w
        → keys_of (handle_err (λ e. set_status env id r.status >> raise e) p).1 ≡ keys_of w
    go (ok a, t) e = e
    go (err fault, t) e =
        bind-keeps keys_of (set_status env id r.status) (λ _. raise fault) t refl (λ _ _. refl) ∙ e

entering-KeepsKeys :
    (id : String) (new : Status) (handler : Request → Exec Fault World Request)
    → ((r : Request) → KeepsKeys (handler r))
    → KeepsKeys (entering id new handler)
unfolding get_deletion_request
entering-KeepsKeys id new handler k w = elim (Option-cases (find id (requests_of w))) [
  | inl gone ↦ rw (gone, entering) refl
  | inr (r, here) ↦ elim (Bool-cases (is_valid_transition r.status new)) [
    | inl valid ↦ rw (here, valid, entering) (k r w)
    | inr refused ↦ rw (here, refused, entering) refl
  ]
]

module _ (env : Env) (operation_id id : String) where
  issue_certificate-KeepsKeys : (r : Request) → KeepsKeys (issue_certificate env operation_id id r)
  unfolding issue_certificate
  issue_certificate-KeepsKeys r = claiming-KeepsKeys env id r certificate_issued _ λ w.
      bind-keeps keys_of (or_roll_back env id r (mint env r))
        (finish_certificate env operation_id id r) w
        (or_roll_back-KeepsKeys env id r (mint env r)
          (λ t.
            ap (λ e. e.keys)
              (issue-evidence env.issuer r.user_id r.deletion_request_id (tenant_of r) t.vault))
          w)
        (λ i t. finish-KeepsKeys env _ id r (certificate_fields env i) certificate_issued t)

  advance_to_certificate-KeepsKeys : KeepsKeys (advance_to_certificate env operation_id id)
  unfolding advance_to_certificate
  advance_to_certificate-KeepsKeys =
      entering-KeepsKeys id certificate_issued (issue_certificate env operation_id id)
        issue_certificate-KeepsKeys

  advance_to_failure-KeepsKeys :
      (failed : List String) → KeepsKeys (advance_to_failure env operation_id failed id)
  unfolding advance_to_failure fail_cascade
  advance_to_failure-KeepsKeys failed =
      entering-KeepsKeys id cascade_partial_failure (fail_cascade env operation_id failed id) λ r.
        claiming-KeepsKeys env id r cascade_partial_failure _
          (finish-KeepsKeys env _ id r no_fields cascade_partial_failure)

module _ (env : Env) (operation_id id : String) where
  start_plan-KeepsKeys : (r : Request) (p : Plan) → KeepsKeys (start_plan env operation_id id r p)
  unfolding shortcut_to_cascade_complete
  start_plan-KeepsKeys r shortcut_to_complete = λ w.
      bind-keeps keys_of (set_status env id cascade_complete)
        (λ _. advance_to_certificate (later env) operation_id id) w refl
        (λ _ t. advance_to_certificate-KeepsKeys (later env) operation_id id t)
  start_plan-KeepsKeys r (plan_failed e) =
      advance_to_failure-KeepsKeys (later env) operation_id id _
  start_plan-KeepsKeys r (trigger job destinations) =
      claiming-KeepsKeys env id r cascade_pending _ λ w.
        bind-keeps keys_of (finish env _ id r _ cascade_pending)
          (λ answer. dispatch job >> pure answer) w
          (finish-KeepsKeys env _ id r _ cascade_pending w) (λ _ _. refl)

  -- The advance to CASCADE_PENDING, with all that it may start, changes no key.
  pub cascade-KeepsKeys :
      (failed : List String)
      → KeepsKeys (advance_request env operation_id failed id cascade_pending)
  unfolding advance_request handle start_cascade
  cascade-KeepsKeys failed =
      entering-KeepsKeys id cascade_pending (handle env operation_id failed id cascade_pending)
        λ r w. start_plan-KeepsKeys r (prepare_cascade_trigger env operation_id id r w) w

  -- Advancing a stored request at SHRED_REQUESTED to KEY_DESTROYED leaves its user's key shredded, if the
  -- registry answers.
  pub destroy-Shredded :
      (failed : List String) (r : Request) (w : World)
      → find id (requests_of w) ≡ some r
      → r.status ≡ shred_requested
      → env.shred_outage ≡ none
      → Shredded
          (keys_of (advance_request env operation_id failed id key_destroyed w).1)
          (tenant_of r)
          r.user_id
  unfolding advance_request handle destroy_key claim_or_lose claim_transition get_deletion_request
      is_valid_transition transitions shred_key_for_user
  destroy-Shredded failed r w here at up =
      let claimed =
        set_requests (put id (enter_status (env.clock 0) key_destroyed r) (requests_of w)) w in
      let after =
        shred_key_for_user (env.clock 2) r.user_id (tenant_of r) (some id) (keys_of claimed) in
      let valid : is_valid_transition r.status key_destroyed ≡ true = rw at refl in
      let allowed : is_allowed r.status (r.status ∷ []) ≡ true = rw at refl in
      let win : claim_or_lose env id r key_destroyed w ≡ (ok none, claimed) =
        rw (claim_or_lose, claim_transition, here, allowed) refl in
      let gone : shred env id r claimed ≡ (ok tt, set_keys after claimed) = rw up refl in
      let kept : keys_of (advance_request env operation_id failed id key_destroyed w).1 ≡ after =
        rw (entering, here, valid)
          (ap
              (λ p.
                keys_of (follow (unless_lost (or_roll_back env id r (shred env id r) >> end)) p).1)
              win
            ∙ (ap
                  (λ p.
                    keys_of
                      (follow (λ _. end)
                        (handle_err (λ e. set_status env id r.status >> raise e) p)).1)
                  gone
                ∙ finish-KeepsKeys env event id r fields key_destroyed (set_keys after claimed))) in
      (
        shred_fields (env.clock 2) (some id)
            (or_default (find (doc_id (tenant_of r) r.user_id) (keys_of w)) empty_key),
        ap (find (doc_id (tenant_of r) r.user_id)) kept
            ∙ find-put_self (doc_id (tenant_of r) r.user_id) _ (keys_of w),
        refl,
      )
    where
      event : LineageEvent
      event = event_of EventType.key_shredded operation_id id r []

      fields : UpdateFields
      fields = record no_fields { key_destroyed_at = some (env.clock 3) }

      end : Exec Fault World Request
      end = finish env event id r fields key_destroyed
