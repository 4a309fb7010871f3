-- ===== src/Requests/Types.antt =====
-- types/deletion-request.ts. A `Date` is the number of its milliseconds; a field that may be absent
-- is an `Option`.
use chameleon_vault.Prelude.{ℕ, String, Bool, Option, List, nat_beq}

pub data Status : Type 0 where
  shred_requested : Status
  key_destroyed : Status
  cascade_pending : Status
  cascade_in_progress : Status
  cascade_complete : Status
  cascade_partial_failure : Status
  certificate_issued : Status

-- Texts are compared by `===`; the constructors stand for distinct texts.
abbrev pub status_index : Status → ℕ
status_index shred_requested = 0
status_index key_destroyed = 1
status_index cascade_pending = 2
status_index cascade_in_progress = 3
status_index cascade_complete = 4
status_index cascade_partial_failure = 5
status_index certificate_issued = 6

abbrev pub status_eq : Status → Status → Bool
status_eq a b = nat_beq (status_index a) (status_index b)

pub data WipeStatus : Type 0 where
  pending : WipeStatus
  in_progress : WipeStatus
  succeeded : WipeStatus
  failed : WipeStatus
  dlq : WipeStatus

-- `details`, with the fields that the callers set.
pub record Details : Type 0 where
  pub attempts : Option ℕ
  pub records_found : Option ℕ
  pub rows_affected : Option ℕ
  pub error : Option String

pub record Wipe : Type 0 where
  pub destination : String
  pub status : WipeStatus
  pub updated_at : ℕ
  pub details : Details

pub record HistoryItem : Type 0 where
  pub status : Status
  pub timestamp : ℕ

pub record Request : Type 0 where
  pub deletion_request_id : String
  pub tenant_id : Option String
  pub user_id : String
  pub status : Status
  pub created_at : ℕ
  pub status_history : List HistoryItem
  pub janitor_wipes : List Wipe
  pub key_destroyed_at : Option ℕ
  pub cascade_initiated_at : Option ℕ
  pub certificate_issued_at : Option ℕ
  pub certificate_gcs_path : Option String
  pub requested_by : Option String
