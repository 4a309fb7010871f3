-- ===== src/Deletion/Withheld.antt =====
-- A cascade in which a destination fails leads to no certificate.
use mathlib.Core.Path.{subst}
use chameleon_vault.Prelude.{
  String, ◌≡◌, refl, sym, ◌∙◌, inl, inr, Bool, true, false, Option, none, some, List, [], ◌∷◌, ok,
  err, if◌then◌else◌, ◌++◌, Result, Exec, pure, raise, handle_err, ◌>>=◌, bind-keeps, find,
  Bool-cases, Option-cases, keep,
}
use chameleon_vault.Fault.{Fault}
use chameleon_vault.Requests.Types.{Status, cascade_partial_failure, Request}
use chameleon_vault.Requests.Repository.{get_deletion_request, claim_transition}
use chameleon_vault.Certificate.Chain.{Chain}
use chameleon_vault.Certificate.Bucket.{Bucket}
use chameleon_vault.Deletion.World.{
  EventType, LineageEvent, Job, World, Env, later, requests_of, on_requests, record_event,
}
use chameleon_vault.Deletion.Handlers.{
  is_valid_transition, fail_cascade, claim_or_lose, entering, finish, set_fields, unless_lost,
  event_of, result_of,
}
use chameleon_vault.Requests.Repository.{no_fields, UpdateFields}
use chameleon_vault.Deletion.Service.{advance_request, advance_to_failure, handle, update_wipe}
use chameleon_vault.Deletion.Cascade.{
  failed_destinations, Outcome, outcomes, has_failed, next_status, record_outcomes, settle, recover,
  run_cascade, cleanup, sent,
}

-- The certificates: the tenants' chains and the evidence bucket.
abbrev pub certificates_of : World → Chain × Bucket
certificates_of w = (w.vault.chain, w.vault.bucket)

abbrev Withholds : {A : Type 0} → Exec Fault World A → Type 0
Withholds m = (w : World) → certificates_of (m w).1 ≡ certificates_of w

finish-Withholds :
    (env : Env) (event : LineageEvent) (id : String) (r : Request) (f : UpdateFields) (s : Status)
    → Withholds (finish env event id r f s)
finish-Withholds env event id r f s w =
    bind-keeps certificates_of (record_event env event) (λ _. set_fields id f >>= λ _. answer) w
      (go env.lineage_up)
      (λ _ t. bind-keeps certificates_of (set_fields id f) (λ _. answer) t refl (λ _ _. refl))
  where
    answer : Exec Fault World Request
    answer = pure (result_of r f s)

    go :
        (b : Bool)
        → certificates_of (if b then record w { lineage = w.lineage ++ event ∷ [] } else w)
          ≡ certificates_of w
    go true = refl
    go false = refl

module _ (env : Env) (operation_id : String) (failed : List String) (id : String) where
  fail_cascade-Withholds : (r : Request) → Withholds (fail_cascade env operation_id failed id r)
  unfolding fail_cascade claim_or_lose
  fail_cascade-Withholds r w =
      bind-keeps certificates_of (claim_or_lose env id r cascade_partial_failure)
        (unless_lost (
          finish env (event_of EventType.cascade_partial_failure operation_id id r failed) id r
            no_fields cascade_partial_failure))
        w
        (bind-keeps certificates_of
          (on_requests (claim_transition (env.clock 0) id (r.status ∷ []) cascade_partial_failure))
          _ w refl (λ _ _. refl))
        go
    where
      go :
          (o : Option Request) (t : World)
          → certificates_of
              (unless_lost
                (finish env
                  (event_of EventType.cascade_partial_failure operation_id id r failed)
                  id
                  r
                  no_fields
                  cascade_partial_failure)
                o
                t).1
            ≡ certificates_of t
      go none t = finish-Withholds env _ id r no_fields cascade_partial_failure t
      go (some current) t = refl

  entering-Withholds :
      Withholds (entering id cascade_partial_failure (fail_cascade env operation_id failed id))
  unfolding get_deletion_request
  entering-Withholds w = elim (Option-cases (find id (requests_of w))) [
    | inl gone ↦ rw (gone, entering) refl
    | inr (r, here) ↦ elim (Bool-cases (is_valid_transition r.status cascade_partial_failure)) [
      | inl valid ↦ rw (here, valid, entering) (fail_cascade-Withholds r w)
      | inr refused ↦ rw (here, refused, entering) refl
    ]
  ]

record_outcomes-certificates :
    (env : Env) (id : String) (os : List Outcome) (w : World)
    → certificates_of (record_outcomes env id os w) ≡ certificates_of w
unfolding record_outcomes update_wipe
record_outcomes-certificates env id [] w = refl
record_outcomes-certificates env id (o ∷ os) w = record_outcomes-certificates env id os _

-- Some outcome failed.
abbrev pub SomeFailed : List Outcome → Type 0
SomeFailed os = (o : Outcome) × (rest : List Outcome) × (keep has_failed os ≡ o ∷ rest)

settle-certificates :
    (env : Env) (job : Job) (os : List Outcome) (w : World)
    → SomeFailed os
    → certificates_of (settle env job os w).1 ≡ certificates_of w
unfolding settle advance_request handle
settle-certificates env job os w (o, rest, e) =
    subst
      (λ (s : Status).
        certificates_of
          (entering id s (handle (later env) job.operation_id (failed_destinations os) id s)
            recorded).1
        ≡ certificates_of w)
      (sym next)
      (entering-Withholds (later env) job.operation_id (failed_destinations os) id recorded
        ∙ record_outcomes-certificates env id os w)
  where
    id : String
    id = job.deletion_request_id

    recorded : World
    recorded = record_outcomes env id os w

    next : next_status os ≡ cascade_partial_failure
    next = rw e refl

-- The recovery writes no certificate either.
recover-certificates :
    (env : Env) (job : Job) (m : Exec Fault World Request) (w : World)
    → certificates_of (m w).1 ≡ certificates_of w
    → certificates_of (recover env job m w) ≡ certificates_of w
unfolding recover advance_to_failure
recover-certificates env job m w h = go (m w) h
  where
    go :
        (p : Result Fault Request × World)
        → certificates_of p.1 ≡ certificates_of w
        → certificates_of
            (handle_err
              (λ e.
                advance_to_failure
                  (later (later (later env)))
                  job.operation_id
                  ("internal-error" ∷ [])
                  job.deletion_request_id)
              p).1
          ≡ certificates_of w
    go (ok r, t) k = k
    go (err e, t) k =
        entering-Withholds (later (later (later env))) job.operation_id ("internal-error" ∷ [])
          job.deletion_request_id t
        ∙ k

-- A cascade in which a destination fails leaves the chains and the bucket as they were: no certificate
-- is signed into a chain, whatever happens to the request.
pub failed_cascade_withholds :
    (env : Env) (job : Job) (w : World)
    → SomeFailed (outcomes env job w)
    → certificates_of (run_cascade env job w) ≡ certificates_of w
unfolding run_cascade
failed_cascade_withholds env job w some_failed = go env.cleanup_outage
  where
    go :
        (o : Option Fault)
        → certificates_of (elim o [
          | some e ↦ recover env job (raise e) w
          | none ↦
              recover env job (settle env job (outcomes env job w)) (sent (cleanup env job w) w)
        ])
          ≡ certificates_of w
    go (some e) = recover-certificates env job (raise e) w refl
    go none =
        recover-certificates env job (settle env job (outcomes env job w))
          (sent (cleanup env job w) w)
          (settle-certificates env job _ (sent (cleanup env job w) w) some_failed)
