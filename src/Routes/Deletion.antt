-- ===== src/Routes/Deletion.antt =====
-- routes/deletion-requests.ts and DELETE /key/shred of routes/crypto.ts. The test on UUIDs is Joi's, and a
-- parameter. `requested_by` is the analyst of the credential, `correlation` the id of the call.
use Prim.Native.String
use chameleon_vault.Prelude.{
  String, Bool, true, false, ◌&&◌, ◌||◌, not, Option, none, some, [], is_some, ok, err, Result,
  if◌then◌else◌, or_default, or_else, ◌==◌,
}
use chameleon_vault.Prelude.Decimal.{show}
use chameleon_vault.Fault.{Fault}
use chameleon_vault.Requests.Types.{
  Status, key_destroyed, cascade_pending, certificate_issued, Request,
}
use chameleon_vault.Keys.Registry.{KeyState, shredded, KeyStatus, get_key_status, or_text}
use chameleon_vault.Deletion.World.{World, Env, later, keys_of}
use chameleon_vault.Deletion.Service.{Created, create_request, advance_request, get_request}
use chameleon_vault.Routes.Http.{
  Reply, sent, refused, tenant_header, default_tenant, UserRef, is_valid_ref, user_of,
}

-- What a body has as `userId`, `user_id`, `operationId` and `operation_id`.
pub record DeletionBody : Type 0 where
  pub user : UserRef
  pub operation_id_camel : Option String
  pub operation_id_snake : Option String

-- `body.operationId || body.operation_id`
abbrev operation_of : DeletionBody → Option String
operation_of b = or_text b.operation_id_camel (or_text b.operation_id_snake none)

abbrev optional_text : (String → Bool) → Option String → Bool
optional_text p none = true
optional_text p (some s) = p s

-- `createDeletionRequestSchema`
unfoldable pub is_valid_creation : (String → Bool) → DeletionBody → Bool
is_valid_creation is_uuid b =
    is_valid_ref b.user
    && ((optional_text is_uuid b.operation_id_camel && optional_text is_uuid b.operation_id_snake)
        && (is_some b.operation_id_camel || is_some b.operation_id_snake))

abbrev creation_reply : Result Fault Created × World → Reply Request × World
creation_reply (err e, w) = (refused 500, w)
creation_reply (ok c, w) = (sent (if c.already_existed then 200 else 201) c.request, w)

-- POST /deletion-requests; what Joi refuses is a 500 here.
unfoldable pub create_route :
    (String → Bool)
    → Env
    → Option String
    → Option String
    → DeletionBody
    → World
    → Reply Request × World
create_route is_uuid env header requested_by b w =
    if is_valid_creation is_uuid b
    then creation_reply (
        create_request env (user_of b.user) (or_default (operation_of b) "") (tenant_header header)
          requested_by w)
    else (refused 500, w)

-- `(request.tenant_id ?? 'default-tenant') !== tenantId` hides the request.
unfoldable pub visible : String → Option Request → Option Request
visible tenant none = none
visible tenant (some r) = if or_default r.tenant_id default_tenant == tenant then some r else none

abbrev pub found_reply : Option Request → Reply Request
found_reply none = refused 404
found_reply (some r) = sent 200 r

-- GET /deletion-requests/:deletionRequestId
unfoldable pub get_route : (String → Bool) → Option String → String → World → Reply Request
get_route is_uuid header id w =
    if is_uuid id
    then found_reply (visible (tenant_header header) (get_request id w))
    else refused 500

-- `newStatus` and `new_status`, where a text that is no status is refused, and the operation ids.
pub record AdvanceBody : Type 0 where
  pub new_status_camel : Option (Option Status)
  pub new_status_snake : Option (Option Status)
  pub operation_camel : Option String
  pub operation_snake : Option String

abbrev status_of_text : Option (Option Status) → Option Status
status_of_text none = none
status_of_text (some s) = s

abbrev is_valid_status : Option (Option Status) → Bool
is_valid_status none = true
is_valid_status (some s) = is_some s

-- `advanceDeletionRequestSchema`
unfoldable pub is_valid_advance : (String → Bool) → AdvanceBody → Bool
is_valid_advance is_uuid b =
    ((is_valid_status b.new_status_camel && is_valid_status b.new_status_snake)
      && (is_some b.new_status_camel || is_some b.new_status_snake))
    && ((optional_text is_uuid b.operation_camel && optional_text is_uuid b.operation_snake)
        && (is_some b.operation_camel || is_some b.operation_snake))

abbrev advanced_reply : Result Fault Request × World → Reply Request × World
advanced_reply (err e, w) = (refused 500, w)
advanced_reply (ok r, w) = (sent 200 r, w)

-- The call of `advanceRequest` for the tenant's own request.
abbrev pub advance_visible :
    Env → String → String → Option Status → Option Request → World → Reply Request × World
advance_visible env id operation_id none r w = (refused 500, w)
advance_visible env id operation_id (some new) none w = (refused 404, w)
advance_visible env id operation_id (some new) (some r) w =
    advanced_reply (advance_request env operation_id [] id new w)

-- POST /deletion-requests/:deletionRequestId/advance
unfoldable pub advance_route :
    (String → Bool) → Env → Option String → String → AdvanceBody → World → Reply Request × World
advance_route is_uuid env header id b w =
    if is_uuid id && is_valid_advance is_uuid b
    then advance_visible env id
        (or_default (or_text b.operation_camel (or_text b.operation_snake none)) "")
        (or_else (status_of_text b.new_status_camel) (status_of_text b.new_status_snake))
        (visible (tenant_header header) (get_request id w)) w
    else (refused 500, w)

-- What DELETE /key/shred answers: a status and, but for a key that was shredded before, the request's id.
pub record ShredReply : Type 0 where
  pub status : Status
  pub deletion_request_id : Option String

abbrev progress_of : Request → ShredReply
progress_of r = record { status = r.status; deletion_request_id = some r.deletion_request_id }

abbrev is_text : String → Bool
is_text s = not (s == "")

-- `keyShredSchema`; Joi refuses an empty text.
unfoldable pub is_valid_shred : DeletionBody → Bool
is_valid_shred b =
    is_valid_ref b.user
    && (optional_text is_text b.operation_id_camel && optional_text is_text b.operation_id_snake)

-- The client's operation id, or the call's, or one made of the user and the time.
unfoldable pub shred_operation : Env → Option String → DeletionBody → String
shred_operation env correlation b =
    or_default (or_else (operation_of b) (or_text correlation none))
      (String.◌++◌ "shred-" (String.◌++◌ (user_of b.user) (String.◌∷◌ "-" (show (env.clock 0)))))

abbrev pub cascade_reply : Result Fault Request × World → Reply ShredReply × World
cascade_reply (err e, w) = (refused 500, w)
cascade_reply (ok r, w) = (sent 200 (progress_of r), w)

-- Then to CASCADE_PENDING.
abbrev pub then_cascade : Env → String → Result Fault Request × World → Reply ShredReply × World
then_cascade env operation_id (err e, w) = (refused 500, w)
then_cascade env operation_id (ok r, w) =
    cascade_reply (advance_request env operation_id [] r.deletion_request_id cascade_pending w)

-- A new request goes to KEY_DESTROYED at once.
abbrev pub then_destroy : Env → String → Result Fault Created × World → Reply ShredReply × World
then_destroy env operation_id (err e, w) = (refused 500, w)
then_destroy env operation_id (ok c, w) =
    if c.already_existed
    then (sent 200 (progress_of c.request), w)
    else then_cascade (later env) operation_id
        (advance_request env operation_id [] c.request.deletion_request_id key_destroyed w)

abbrev pub is_erased : KeyState → Bool
is_erased shredded = true
is_erased _ = false

abbrev pub shred_key :
    Env → String → String → String → Option KeyStatus → World → Reply ShredReply × World
shred_key env tenant user operation_id none w = (refused 404, w)
shred_key env tenant user operation_id (some s) w =
    if is_erased s.status
    then (sent 200 (record { status = certificate_issued; deletion_request_id = none }), w)
    else then_destroy (later env) operation_id (create_request env user operation_id tenant none w)

-- DELETE /key/shred
unfoldable pub shred_route :
    Env → Option String → Option String → DeletionBody → World → Reply ShredReply × World
shred_route env header correlation b w =
    let operation_id = shred_operation env correlation b in
    let known = get_request operation_id w in
    if is_valid_shred b
    then elim known [
      | some r ↦ (sent 200 (progress_of r), w)
      | none ↦
          shred_key env (tenant_header header) (user_of b.user) operation_id
            (get_key_status (env.clock 0) (user_of b.user) (tenant_header header) (keys_of w)) w
    ]
    else (refused 400, w)
