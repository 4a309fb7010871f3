-- ===== src/Deletion/Reachable.antt =====
-- The worlds that the calls of the service, the cascades and the shred route lead to.
use mathlib.Core.Option.{none-ne-some}
use mathlib.Core.Bool.{false≢true}
use chameleon_vault.Prelude.{
  ℕ, String, ◌≡◌, refl, sym, ap, ◌∙◌, false, pure, ◌>>◌, Option, none, some, List, [], inl, inr,
  Option-cases, find,
}
use chameleon_vault.Requests.Types.{Status, Request, WipeStatus, Details, certificate_issued}
use chameleon_vault.Requests.Repository.{Requests, create_deletion_request}
use chameleon_vault.Requests.Queries.{get_active_deletion_request_for_user}
use chameleon_vault.Keys.Registry.{Keys, shred_key_for_user}
use chameleon_vault.Deletion.World.{
  record_event, set_requests, Job, World, Env, requests_of, keys_of, set_keys, tenant_of,
}
use chameleon_vault.Deletion.Service.{
  Created, created_event, create_request, advance_request, update_wipe, handle,
}
use chameleon_vault.Deletion.Cascade.{run_cascade}
use chameleon_vault.Deletion.Keeps.{
  IsSound, Sound, Keeps, Keeps-then, Shredded, is_issued, Sound-put, Sound-shred, update_wipe-Keeps,
  record_event-Keeps,
}
use chameleon_vault.Deletion.Minting.{Agrees}
use chameleon_vault.Deletion.Invariant.{advance_request-Keeps, handle-IsSound, run_cascade-IsSound}

-- One call. `stale` is a call of `advanceRequest` that has read its request in an earlier world: what
-- it has read had a way on, and the store still has a request of the same user, if it has one.
pub data Step : World → World → Type 0 where
  created :
      {w : World} (env : Env) (user_id operation_id tenant_id : String) (by : Option String)
      → Step w (create_request env user_id operation_id tenant_id by w).1
  advanced :
      {w : World} (env : Env) (operation_id : String) (failed : List String) (id : String)
      (new : Status)
      → Step w (advance_request env operation_id failed id new w).1
  stale :
      {w : World} (env : Env) (operation_id : String) (failed : List String) (id : String)
      (new : Status) (r : Request)
      → is_issued r.status ≡ false
      → Agrees id r w
      → Step w (handle env operation_id failed id new r w).1
  cascaded : {w : World} (env : Env) (job : Job) → Step w (run_cascade env job w)
  wiped :
      {w : World} (env : Env) (id destination : String) (s : WipeStatus) (d : Details)
      → Step w (update_wipe env id destination s d w).1
  shredded :
      {w : World} (now : ℕ) (user_id tenant_id : String)
      → Step w (set_keys (shred_key_for_user now user_id tenant_id none (keys_of w)) w)

pub data Steps : World → World → Type 0 where
  done : {w : World} → Steps w w
  next : {u v w : World} → Step u v → Steps v w → Steps u w

created-Sound :
    (now : ℕ) (user_id operation_id tenant_id : String) (by : Option String) (m : Requests)
    (keys : Keys)
    → Sound m keys
    → Sound (create_deletion_request now user_id operation_id tenant_id by m).1 keys
unfolding create_deletion_request
created-Sound now user_id operation_id tenant_id by m keys h =
    elim (Option-cases (find operation_id m)) [
      | inr (old, there) ↦ rw (there, create_deletion_request) h
      | inl gone ↦
          rw (gone, create_deletion_request)
            (Sound-put m keys operation_id _ h (λ issued. absurd (false≢true issued)))
    ]

create-IsSound :
    (env : Env) (user_id operation_id tenant_id : String) (by : Option String) (w : World)
    → IsSound w
    → IsSound (create_request env user_id operation_id tenant_id by w).1
unfolding create_request
create-IsSound env user_id operation_id tenant_id by w h =
    elim (Option-cases (get_active_deletion_request_for_user user_id tenant_id (requests_of w))) [
      | inr (old, there) ↦ rw (there, create_request) h
      | inl gone ↦
          rw (gone, create_request)
            (new out.0 (set_requests out.1 w) (
              created-Sound (env.clock 0) user_id operation_id tenant_id by (requests_of w)
                (keys_of w) h))
    ]
  where
    out : Request × Requests
    out = create_deletion_request (env.clock 0) user_id operation_id tenant_id by (requests_of w)

    new :
        (r : Request)
        → Keeps (
            record_event env (created_event user_id operation_id tenant_id)
            >> pure {A = Created} (record { request = r; already_existed = false }))
    new r =
        Keeps-then (record_event env (created_event user_id operation_id tenant_id))
          (pure {A = Created} (record { request = r; already_existed = false }))
          (record_event-Keeps env _) (λ w h. h)

Step-IsSound : {v w : World} → Step v w → IsSound v → IsSound w
Step-IsSound {v} (created env user_id operation_id tenant_id by) h =
    create-IsSound env user_id operation_id tenant_id by v h
Step-IsSound {v} (advanced env operation_id failed id new) h =
    advance_request-Keeps env operation_id id failed new v h
Step-IsSound {v} (stale env operation_id failed id new r e own) h =
    handle-IsSound env operation_id id failed new r v e own h
Step-IsSound {v} (cascaded env job) h = run_cascade-IsSound env job v h
Step-IsSound {v} (wiped env id destination s d) h = update_wipe-Keeps env id destination s d v h
Step-IsSound {v} (shredded now user_id tenant_id) h =
    Sound-shred now user_id tenant_id none (requests_of v) (keys_of v) h

pub Steps-IsSound : {v w : World} → Steps v w → IsSound v → IsSound w
Steps-IsSound done h = h
Steps-IsSound (next s ss) h = Steps-IsSound ss (Step-IsSound s h)

-- If Firestore answers the calls on the requests, then from a world with no request yet, whatever calls
-- are made, in whatever order, with whatever other outages, by callers that may have read an old state: a
-- request at CERTIFICATE_ISSUED is of a user whose key
-- document is shredded or deleted.
pub issued_is_Shredded :
    {v w : World} (id : String) (r : Request)
    → requests_of v ≡ []
    → Steps v w
    → find id (requests_of w) ≡ some r
    → r.status ≡ certificate_issued
    → Shredded (keys_of w) (tenant_of r) r.user_id
unfolding find
issued_is_Shredded {v} {w} id r empty ss here issued =
    Steps-IsSound ss (nothing v empty) id r here (rw issued refl)
  where
    nothing : (u : World) → requests_of u ≡ [] → IsSound u
    nothing u e j d found = absurd (none-ne-some d (sym (ap (find j) e) ∙ found))
