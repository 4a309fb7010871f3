-- ===== src/SyncRuns/Repository.antt =====
-- types/sync-run.ts and gcp/sync-run-repository.ts. The collection is keyed by the run's id; `now` is the
-- reading of the clock, and a transaction is one step of the model.
use chameleon_vault.Prelude.{
  ℕ, suc, String, Bool, false, Option, none, some, leb, if◌then◌else◌, ◌==◌, Docs, find, put,
}

pub data SyncRunStatus : Type 0 where
  enumerating : SyncRunStatus
  running : SyncRunStatus
  complete : SyncRunStatus

pub data Outcome : Type 0 where
  completed : Outcome
  failed : Outcome

pub record SyncRun : Type 0 where
  pub run_id : String
  pub tenant_id : String
  pub resource_id : Option String
  pub status : SyncRunStatus
  pub chunks_total : Option ℕ
  pub chunks_completed : ℕ
  pub chunks_failed : ℕ
  pub started_at : ℕ
  pub completed_at : Option ℕ

abbrev pub SyncRuns : Type 0
SyncRuns = Docs SyncRun

-- `...(input.resourceId && { resourceId })`
abbrev unless_empty : Option String → Option String
unless_empty none = none
unless_empty (some s) = if s == "" then none else some s

abbrev pub new_run : ℕ → String → String → Option String → SyncRun
new_run now run_id tenant_id resource_id = record {
  run_id = run_id;
  tenant_id = tenant_id;
  resource_id = unless_empty resource_id;
  status = enumerating;
  chunks_total = none;
  chunks_completed = 0;
  chunks_failed = 0;
  started_at = now;
  completed_at = none;
}

unfoldable pub create : ℕ → String → String → Option String → SyncRuns → SyncRun × SyncRuns
create now run_id tenant_id resource_id m =
    let run = new_run now run_id tenant_id resource_id in (run, put run_id run m)

unfoldable pub get : String → SyncRuns → Option SyncRun
get run_id m = find run_id m

abbrev first_time : ℕ → Option ℕ → Option ℕ
first_time now none = some now
first_time now (some t) = some t

abbrev pub with_total : ℕ → ℕ → SyncRun → SyncRun
with_total now chunks_total r =
    if leb chunks_total r.chunks_completed
    then record r {
      chunks_total = some chunks_total;
      status = complete;
      completed_at = first_time now r.completed_at;
    }
    else record r { chunks_total = some chunks_total; status = running }

abbrev pub updated : String → (SyncRun → SyncRun) → SyncRuns → Option SyncRun × SyncRuns
updated run_id f m = elim (find run_id m) [
  | none ↦ (none, m)
  | some r ↦ (some (f r), put run_id (f r) m)
]

unfoldable pub finalize_total : ℕ → String → ℕ → SyncRuns → Option SyncRun × SyncRuns
finalize_total now run_id chunks_total m = updated run_id (with_total now chunks_total) m

abbrev pub counted : Outcome → SyncRun → SyncRun
counted completed r = record r { chunks_completed = suc r.chunks_completed }
counted failed r = record r { chunks_failed = suc r.chunks_failed }

abbrev is_done : Option ℕ → ℕ → Bool
is_done none n = false
is_done (some total) n = leb total n

abbrev finished : ℕ → SyncRun → SyncRun
finished now r =
    if is_done r.chunks_total r.chunks_completed
    then record r { status = complete; completed_at = some now }
    else r

abbrev pub with_outcome : ℕ → Outcome → SyncRun → SyncRun
with_outcome now outcome r = finished now (counted outcome r)

unfoldable pub record_chunk_outcome : ℕ → String → Outcome → SyncRuns → Option SyncRun × SyncRuns
record_chunk_outcome now run_id outcome m = updated run_id (with_outcome now outcome) m
