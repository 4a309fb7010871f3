-- ===== src/SyncRuns/Progress.antt =====
-- The progress of a run does not depend on when its total becomes known.
use chameleon_vault.Prelude.{
  ℕ, suc, ◌+◌, String, ◌≡◌, refl, ap, ◌∙◌, inl, inr, false, Option, none, some, List, [], ◌∷◌,
  arith, leb, if◌then◌else◌, find, put, find-put_self, Bool-cases,
}
use chameleon_vault.SyncRuns.Repository.{
  SyncRunStatus, enumerating, running, complete, Outcome, completed, failed, SyncRun, SyncRuns,
  create, get, new_run, with_total, with_outcome, finalize_total, record_chunk_outcome, updated,
}

-- The reports of a run, with the times they arrive.
abbrev pub record_all : String → List (ℕ × Outcome) → SyncRuns → SyncRuns
record_all id [] m = m
record_all id ((now, o) ∷ os) m = record_all id os (record_chunk_outcome now id o m).1

abbrev pub completions : List (ℕ × Outcome) → ℕ
completions [] = 0
completions ((now, completed) ∷ os) = suc (completions os)
completions ((now, failed) ∷ os) = completions os

abbrev pub failures : List (ℕ × Outcome) → ℕ
failures [] = 0
failures ((now, completed) ∷ os) = failures os
failures ((now, failed) ∷ os) = suc (failures os)

-- What the status is, from the total and the completed chunks.
abbrev pub status_of : Option ℕ → ℕ → SyncRunStatus
status_of none n = enumerating
status_of (some total) n = if leb total n then complete else running

-- The run has these counts, this total, and the status that they give.
pub record Shows (total : Option ℕ) (done broken : ℕ) (r : SyncRun) : Type 0 where
  pub its_total : r.chunks_total ≡ total
  pub its_completed : r.chunks_completed ≡ done
  pub its_failed : r.chunks_failed ≡ broken
  pub its_status : r.status ≡ status_of total done

completed-Shows :
    (total : Option ℕ) (done broken now : ℕ) (r : SyncRun)
    → Shows total done broken r
    → Shows total (suc done) broken (with_outcome now completed r)
completed-Shows none done broken now r a = record {
  its_total = rw a.its_total refl;
  its_completed = rw a.its_total (ap suc a.its_completed);
  its_failed = rw a.its_total a.its_failed;
  its_status = rw a.its_total a.its_status;
}
completed-Shows (some t) done broken now r a = elim (Bool-cases (leb t (suc done))) [
  | inl e ↦ record {
    its_total = rw (a.its_total, a.its_completed, e) refl;
    its_completed = rw (a.its_total, a.its_completed, e) refl;
    its_failed = rw (a.its_total, a.its_completed, e) a.its_failed;
    its_status = rw (a.its_total, a.its_completed, e) refl;
  }
  | inr e ↦ record {
    its_total = rw (a.its_total, a.its_completed, e) refl;
    its_completed = rw (a.its_total, a.its_completed, e) refl;
    its_failed = rw (a.its_total, a.its_completed, e) a.its_failed;
    its_status = rw (a.its_total, a.its_completed, e) (a.its_status ∙ before_too e);
  }
]
  where
    before_too : leb t (suc done) ≡ false → status_of (some t) done ≡ running
    before_too h = ground arith

failed-Shows :
    (total : Option ℕ) (done broken now : ℕ) (r : SyncRun)
    → Shows total done broken r
    → Shows total done (suc broken) (with_outcome now failed r)
failed-Shows none done broken now r a = record {
  its_total = rw a.its_total refl;
  its_completed = rw a.its_total a.its_completed;
  its_failed = rw a.its_total (ap suc a.its_failed);
  its_status = rw a.its_total a.its_status;
}
failed-Shows (some t) done broken now r a = elim (Bool-cases (leb t done)) [
  | inl e ↦ record {
    its_total = rw (a.its_total, a.its_completed, e) refl;
    its_completed = rw (a.its_total, a.its_completed, e) refl;
    its_failed = rw (a.its_total, a.its_completed, e) (ap suc a.its_failed);
    its_status = rw (a.its_total, a.its_completed, e) refl;
  }
  | inr e ↦ record {
    its_total = rw (a.its_total, a.its_completed, e) refl;
    its_completed = rw (a.its_total, a.its_completed, e) refl;
    its_failed = rw (a.its_total, a.its_completed, e) (ap suc a.its_failed);
    its_status = rw (a.its_total, a.its_completed, e) (a.its_status ∙ rw e refl);
  }
]

total-Shows :
    (total : Option ℕ) (done broken now t : ℕ) (r : SyncRun)
    → Shows total done broken r
    → Shows (some t) done broken (with_total now t r)
total-Shows total done broken now t r a = elim (Bool-cases (leb t done)) [
  | inl e ↦ record {
    its_total = rw (a.its_completed, e) refl;
    its_completed = rw (a.its_completed, e) refl;
    its_failed = rw (a.its_completed, e) a.its_failed;
    its_status = rw (a.its_completed, e) refl;
  }
  | inr e ↦ record {
    its_total = rw (a.its_completed, e) refl;
    its_completed = rw (a.its_completed, e) refl;
    its_failed = rw (a.its_completed, e) a.its_failed;
    its_status = rw (a.its_completed, e) refl;
  }
]

-- The stored run shows these.
abbrev pub ShowsAt : String → Option ℕ → ℕ → ℕ → SyncRuns → Type 0
ShowsAt id total done broken m = (r : SyncRun) × (get id m ≡ some r) × Shows total done broken r

moved :
    (id : String) (total : Option ℕ) (m : SyncRuns) {d d' b b' : ℕ}
    → d ≡ d'
    → b ≡ b'
    → ShowsAt id total d b m
    → ShowsAt id total d' b' m
moved id total m e f s = rw (← e, ← f) s

stored_after :
    (id : String) (f : SyncRun → SyncRun) (r : SyncRun) (m : SyncRuns)
    → get id m ≡ some r
    → (updated id f m).1 ≡ put id (f r) m
unfolding get
stored_after id f r m here = let found : find id m ≡ some r = here in rw (updated, found) refl

completed_step :
    (id : String) (now done broken : ℕ) (total : Option ℕ) (m : SyncRuns)
    → ShowsAt id total done broken m
    → ShowsAt id total (suc done) broken (record_chunk_outcome now id completed m).1
unfolding get record_chunk_outcome
completed_step id now done broken total m (r, here, a) =
    rw (stored_after id (with_outcome now completed) r m here) (
      with_outcome now completed r,
      find-put_self id _ m,
      completed-Shows total done broken now r a,
    )

failed_step :
    (id : String) (now done broken : ℕ) (total : Option ℕ) (m : SyncRuns)
    → ShowsAt id total done broken m
    → ShowsAt id total done (suc broken) (record_chunk_outcome now id failed m).1
unfolding get record_chunk_outcome
failed_step id now done broken total m (r, here, a) =
    rw (stored_after id (with_outcome now failed) r m here)
      (with_outcome now failed r, find-put_self id _ m, failed-Shows total done broken now r a)

record-ShowsAt :
    (id : String) (total : Option ℕ) (os : List (ℕ × Outcome)) (done broken : ℕ) (m : SyncRuns)
    → ShowsAt id total done broken m
    → ShowsAt id total (done + completions os) (broken + failures os) (record_all id os m)
unfolding get record_chunk_outcome
record-ShowsAt id total [] done broken m s = moved id total _ (omega arith) (omega arith) s
record-ShowsAt id total ((now, completed) ∷ os) done broken m s =
    moved id total _ (omega arith) (omega arith) (
      record-ShowsAt id total os (suc done) broken (record_chunk_outcome now id completed m).1
        (completed_step id now done broken total m s))
record-ShowsAt id total ((now, failed) ∷ os) done broken m s =
    moved id total _ (omega arith) (omega arith) (
      record-ShowsAt id total os done (suc broken) (record_chunk_outcome now id failed m).1
        (failed_step id now done broken total m s))

-- A run that is created, gets reports, then its total, then more reports, has counted every report,
-- whenever it came, and is complete exactly when the completed chunks have reached the total.
pub progress_in_any_order :
    (id tenant : String) (resource : Option String) (start now total : ℕ)
    (early late : List (ℕ × Outcome)) (m : SyncRuns)
    → ShowsAt id
        (some total)
        (completions early + completions late)
        (failures early + failures late)
        (record_all id late
          (finalize_total now id total
            (record_all id early (create start id tenant resource m).1)).1)
unfolding create get finalize_total
progress_in_any_order id tenant resource start now total early late m =
    record-ShowsAt id (some total) late (completions early) (failures early) _ (
      finalized _ (
        moved id none _ (omega arith) (omega arith) (
          record-ShowsAt id none early 0 0 (create start id tenant resource m).1
            (new_run start id tenant resource, find-put_self id _ m, fresh))))
  where
    fresh : Shows none 0 0 (new_run start id tenant resource)
    fresh = record { its_total = refl; its_completed = refl; its_failed = refl; its_status = refl }

    finalized :
        (m' : SyncRuns) {d b : ℕ}
        → ShowsAt id none d b m'
        → ShowsAt id (some total) d b (finalize_total now id total m').1
    finalized m' {d} {b} (r, here, a) =
        rw (stored_after id (with_total now total) r m' here)
          (with_total now total r, find-put_self id _ m', total-Shows none d b now total r a)
