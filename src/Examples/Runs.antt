-- ===== src/Examples/Runs.antt =====
-- The theorem on sync runs, at a run whose first chunk is done before the total is known.
use chameleon_vault.Prelude.{none, some, [], ◌∷◌}
use chameleon_vault.SyncRuns.Repository.{completed, failed, create, finalize_total}
use chameleon_vault.SyncRuns.Progress.{ShowsAt, record_all, progress_in_any_order}

progress_in_any_order_example : ShowsAt "run-1" (some 2) 2 1 (
    record_all "run-1"
      ((4, failed) ∷ (5, completed) ∷ [])
      (finalize_total 3 "run-1" 2
        (record_all "run-1" ((2, completed) ∷ []) (create 1 "run-1" "acme" none []).1)).1)
progress_in_any_order_example =
    progress_in_any_order "run-1" "acme" none 1 3 2 ((2, completed) ∷ [])
      ((4, failed) ∷ (5, completed) ∷ []) []
