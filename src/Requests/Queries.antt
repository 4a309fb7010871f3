-- ===== src/Requests/Queries.antt =====
-- gcp/deletion-request-repository.ts: the queries. `where` is a filter, `orderBy` a sort and `limit`
-- a prefix; an order by a field that a document lacks leaves the document out, as Firestore does.
-- Documents of one time keep the order in which they were first written.
pub mod Newest
pub mod Pages
use chameleon_vault.Prelude.{
  ℕ, String, Bool, true, false, ◌&&◌, Option, none, some, List, [], ◌∷◌, ◌==◌, ltb, leb, keep,
  values, sort_desc, take, first, or_default, is_some,
}
use chameleon_vault.Requests.Types.{
  Status, shred_requested, key_destroyed, cascade_pending, cascade_in_progress, cascade_complete,
  cascade_partial_failure, certificate_issued, Request,
}
use chameleon_vault.Requests.Repository.{Requests, is_allowed}

-- `where(field, '==', value)` on a field that may be absent.
abbrev pub is_text : Option String → String → Bool
is_text none v = false
is_text (some t) v = t == v

abbrev pub created : Request → ℕ
created r = r.created_at

abbrev pub active_statuses : List Status
active_statuses =
    shred_requested ∷ key_destroyed ∷ cascade_pending ∷ cascade_in_progress
    ∷ cascade_partial_failure ∷ []

abbrev pub completed_statuses : List Status
completed_statuses = cascade_complete ∷ certificate_issued ∷ []

-- The filters of the two queries for one user.
abbrev pub for_user : List Status → String → String → Request → Bool
for_user statuses user_id tenant_id r =
    (r.user_id == user_id) && (is_text r.tenant_id tenant_id && is_allowed r.status statuses)

abbrev newest_for_user : List Status → String → String → Requests → Option Request
newest_for_user statuses user_id tenant_id m =
    first (take 1 (sort_desc created (keep (for_user statuses user_id tenant_id) (values m))))

unfoldable pub get_active_deletion_request_for_user : String → String → Requests → Option Request
get_active_deletion_request_for_user = newest_for_user active_statuses

unfoldable pub get_latest_completed_deletion_request_for_user :
    String → String → Requests → Option Request
get_latest_completed_deletion_request_for_user = newest_for_user completed_statuses

abbrev issued : Request → ℕ
issued r = or_default r.certificate_issued_at 0

abbrev issued_for_tenant : String → Request → Bool
issued_for_tenant tenant_id r =
    is_text r.tenant_id tenant_id
    && (is_allowed r.status (certificate_issued ∷ []) && is_some r.certificate_issued_at)

unfoldable pub get_most_recent_certificate_issued_for_tenant : String → Requests → Option Request
get_most_recent_certificate_issued_for_tenant tenant_id m =
    first (take 1 (sort_desc issued (keep (issued_for_tenant tenant_id) (values m))))

-- `startAfter(cursor)` in a descending order.
abbrev after_cursor : Option ℕ → Request → Bool
after_cursor none r = true
after_cursor (some t) r = ltb r.created_at t

abbrev requested_by : String → String → Option ℕ → Request → Bool
requested_by email tenant_id before r =
    is_text r.requested_by email && (is_text r.tenant_id tenant_id && after_cursor before r)

unfoldable pub list_by_requested_by : String → String → ℕ → Option ℕ → Requests → List Request
list_by_requested_by email tenant_id limit before m =
    take limit (sort_desc created (keep (requested_by email tenant_id before) (values m)))

abbrev pub in_range : String → ℕ → ℕ → Request → Bool
in_range tenant_id from to r =
    is_text r.tenant_id tenant_id && (leb from r.created_at && leb r.created_at to)

unfoldable pub list_by_tenant_and_date_range : String → ℕ → ℕ → Requests → List Request
list_by_tenant_and_date_range tenant_id from to m =
    sort_desc created (keep (in_range tenant_id from to) (values m))
