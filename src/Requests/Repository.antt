-- ===== src/Requests/Repository.antt =====
-- gcp/deletion-request-repository.ts: the operations on one document. The collection is keyed by the
-- document's id; `now` is the reading of `Timestamp.now()`. A transaction is one step of the model.
use chameleon_vault.Prelude.{
  ℕ, String, Bool, true, false, ◌&&◌, ◌||◌, Option, none, some, List, [], ◌∷◌, ◌++◌, nat_beq,
  if◌then◌else◌, or_else, ◌==◌, Docs, find, put, ok, err, Exec,
}
use chameleon_vault.Fault.{Fault, request_not_found}
use chameleon_vault.Requests.Types.{
  Status, shred_requested, status_eq, WipeStatus, Details, Wipe, HistoryItem, Request,
}

abbrev pub Requests : Type 0
Requests = Docs Request

abbrev pub fresh : ℕ → String → String → String → Option String → Request
fresh now user_id operation_id tenant_id requested_by = record {
  deletion_request_id = operation_id;
  tenant_id = some tenant_id;
  user_id = user_id;
  status = shred_requested;
  created_at = now;
  status_history = record { status = shred_requested; timestamp = now } ∷ [];
  janitor_wipes = [];
  key_destroyed_at = none;
  cascade_initiated_at = none;
  certificate_issued_at = none;
  certificate_gcs_path = none;
  requested_by = requested_by;
}

unfoldable pub create_deletion_request :
    ℕ → String → String → String → Option String → Requests → Request × Requests
create_deletion_request now user_id operation_id tenant_id requested_by m =
    elim (find operation_id m) [
      | some existing ↦ (existing, m)
      | none ↦
          let r = fresh now user_id operation_id tenant_id requested_by in (r, put operation_id r m)
    ]

unfoldable pub get_deletion_request : String → Requests → Option Request
get_deletion_request id m = find id m

-- `update()` of a document rejects when there is no such document.
abbrev pub update : String → (Request → Request) → Exec Fault Requests (Unit {0})
update id f m = elim (find id m) [
  | none ↦ (err (request_not_found id), m)
  | some r ↦ (ok tt, put id (f r) m)
]

abbrev same_item : HistoryItem → HistoryItem → Bool
same_item a b = status_eq a.status b.status && nat_beq a.timestamp b.timestamp

abbrev has_item : HistoryItem → List HistoryItem → Bool
has_item a [] = false
has_item a (x ∷ xs) = same_item x a || has_item a xs

-- `FieldValue.arrayUnion`: an element that is there already is not added again.
abbrev array_union : HistoryItem → List HistoryItem → List HistoryItem
array_union a xs = if has_item a xs then xs else xs ++ a ∷ []

abbrev pub enter_status : ℕ → Status → Request → Request
enter_status now new r = record r {
  status = new;
  status_history = array_union (record { status = new; timestamp = now }) r.status_history;
}

-- The members of `Partial<DeletionRequest>` that the service sets.
pub record UpdateFields : Type 0 where
  pub key_destroyed_at : Option ℕ
  pub cascade_initiated_at : Option ℕ
  pub certificate_issued_at : Option ℕ
  pub certificate_gcs_path : Option String

abbrev pub no_fields : UpdateFields
no_fields = record {
  key_destroyed_at = none;
  cascade_initiated_at = none;
  certificate_issued_at = none;
  certificate_gcs_path = none;
}

-- `{ ...request, ...updateFields }`
abbrev pub spread_fields : UpdateFields → Request → Request
spread_fields f r = record r {
  key_destroyed_at = or_else f.key_destroyed_at r.key_destroyed_at;
  cascade_initiated_at = or_else f.cascade_initiated_at r.cascade_initiated_at;
  certificate_issued_at = or_else f.certificate_issued_at r.certificate_issued_at;
  certificate_gcs_path = or_else f.certificate_gcs_path r.certificate_gcs_path;
}

unfoldable pub update_deletion_request_status :
    ℕ → String → Status → UpdateFields → Exec Fault Requests (Unit {0})
update_deletion_request_status now id new f =
    update id (λ r. spread_fields f (enter_status now new r))

abbrev pub is_empty : UpdateFields → Bool
is_empty f =
    elim (or_else f.key_destroyed_at (or_else f.cascade_initiated_at f.certificate_issued_at)) [
      | some _ ↦ false
      | none ↦ elim f.certificate_gcs_path [ some _ ↦ false | none ↦ true ]
    ]

unfoldable pub update_deletion_request_fields :
    String → UpdateFields → Exec Fault Requests (Unit {0})
update_deletion_request_fields id f m =
    if is_empty f then (ok tt, m) else update id (spread_fields f) m

pub data Claim : Type 0 where
  claimed : Claim
  lost : Request → Claim

abbrev pub is_allowed : Status → List Status → Bool
is_allowed s [] = false
is_allowed s (x ∷ xs) = status_eq x s || is_allowed s xs

unfoldable pub claim_transition : ℕ → String → List Status → Status → Exec Fault Requests Claim
claim_transition now id allowed new m = elim (find id m) [
  | none ↦ (err (request_not_found id), m)
  | some current ↦
      if is_allowed current.status allowed
      then (ok claimed, put id (enter_status now new current) m)
      else (ok (lost current), m)
]

-- `findIndex`, then an update in place or a `push`; the new entry has every field.
unfoldable pub upsert_wipe : Wipe → List Wipe → List Wipe
upsert_wipe w [] = w ∷ []
upsert_wipe w (x ∷ xs) = if x.destination == w.destination then w ∷ xs else x ∷ upsert_wipe w xs

unfoldable pub update_janitor_wipe_status :
    ℕ → String → String → WipeStatus → Details → Exec Fault Requests (Unit {0})
update_janitor_wipe_status now id destination status details =
    update id (λ r. record r { janitor_wipes = upsert_wipe wipe r.janitor_wipes })
  where
    wipe : Wipe
    wipe = record {
      destination = destination;
      status = status;
      updated_at = now;
      details = details;
    }
