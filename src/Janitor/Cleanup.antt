-- ===== src/Janitor/Cleanup.antt =====
-- The loop over the planned tasks: one result for each, and a dead letter for each failure.
use chameleon_vault.Prelude.{
  ℕ, String, ◌≡◌, ◌++◌, refl, sym, ◌⊎◌, inl, inr, Bool, true, false, Option, some, List, [], ◌∷◌,
  map, keep, arith, Bool-cases, All, All-append, keep-append,
}
use mathlib.Core.List.{map-append}
use chameleon_vault.Keys.Registry.{Keys, get_key_status}
use chameleon_vault.Janitor.Names.{has_connector}
use chameleon_vault.Janitor.Service.{
  Answer, complete, failed, JanitorTask, planned, destinations_of, create_cleanup_plan, retry,
  max_retries, process_task, process_tasks, process_cleanup, Report, DeadLetter, letters,
}

abbrev pub is_failed : JanitorTask → Bool
is_failed t = elim t.status [ failed ↦ true | _ ↦ false ]

abbrev pub is_complete : JanitorTask → Bool
is_complete t = elim t.status [ complete ↦ true | _ ↦ false ]

-- Whose wipe, and where.
abbrev pub address : JanitorTask → String × String
address t = (t.user_id, t.destination)

abbrev pub address_of : DeadLetter → String × String
address_of d = (d.user_id, d.destination)

abbrev pub destination_of : JanitorTask → String
destination_of t = t.destination

-- What the report of one task says; `tried` is the letter that was sent, if it failed.
record Settled (accepts : DeadLetter → Bool) (task : JanitorTask) (r : Report) : Type 0 where
  tried : List DeadLetter
  one : map destination_of r.results ≡ task.destination ∷ []
  final : All (λ t. (t.status ≡ complete) ⊎ (t.status ≡ failed)) r.results
  letters : map address_of tried ≡ map address (keep is_failed r.results)
  sent : r.dead_letters ≡ keep accepts tried

module _ (connectors : String → Option (ℕ → Answer)) (accepts : DeadLetter → Bool) where
  process_task-Settled :
      (task : JanitorTask) (wipe : ℕ → Answer)
      → connectors task.destination ≡ some wipe
      → Settled accepts task (process_task connectors accepts task)
  unfolding process_task
  process_task-Settled task wipe e =
      let t = retry task.destination wipe max_retries 0 "" in
      elim (Bool-cases t.success) [
        | inl good ↦ record {
          tried = letters task t;
          one = ground arith;
          final = ground arith;
          letters = ground arith;
          sent = rw (process_task, e) refl;
        }
        | inr bad ↦ record {
          tried = letters task t;
          one = ground arith;
          final = ground arith;
          letters = ground arith;
          sent = rw (process_task, e) refl;
        }
      ]

-- The connectors that the janitor is given cover the tasks.
abbrev pub Covered : (String → Option (ℕ → Answer)) → List JanitorTask → Type 0
Covered connectors tasks = All (λ t. (w : ℕ → Answer) × (connectors t.destination ≡ some w)) tasks

-- What a whole run reports: exactly one result for each task, in the order of the tasks, each of them
-- complete or failed. A dead letter is sent for each failed one and no other, in order, and those that
-- the topic accepts are published.
pub record SettledAll (accepts : DeadLetter → Bool) (tasks : List JanitorTask) (r : Report)
    : Type 0 where
  pub tried : List DeadLetter
  pub one_each : map destination_of r.results ≡ map destination_of tasks
  pub final : All (λ t. (t.status ≡ complete) ⊎ (t.status ≡ failed)) r.results
  pub letters : map address_of tried ≡ map address (keep is_failed r.results)
  pub sent : r.dead_letters ≡ keep accepts tried

process_tasks-SettledAll :
    (connectors : String → Option (ℕ → Answer)) (accepts : DeadLetter → Bool)
    (tasks : List JanitorTask)
    → Covered connectors tasks
    → SettledAll accepts tasks (process_tasks connectors accepts tasks)
unfolding process_tasks
process_tasks-SettledAll connectors accepts [] h = record {
  tried = [];
  one_each = refl;
  final = tt;
  letters = refl;
  sent = refl;
}
process_tasks-SettledAll connectors accepts (task ∷ tasks) ((w, e), h) =
    let here = process_task-Settled connectors accepts task w e in
    let later = process_tasks-SettledAll connectors accepts tasks h in
    let r = process_task connectors accepts task in
    let s = process_tasks connectors accepts tasks in
    record {
      tried = here.tried ++ later.tried;
      one_each = rw (map-append destination_of r.results s.results, here.one, later.one_each);
      final = All-append _ r.results s.results here.final later.final;
      letters =
          rw
            (
              map-append address_of here.tried later.tried,
              keep-append is_failed r.results s.results,
              here.letters,
              later.letters,
            )
            (sym (map-append address (keep is_failed r.results) (keep is_failed s.results)));
      sent = rw (keep-append accepts here.tried later.tried, here.sent, later.sent) refl;
    }

plan-Covered :
    (connectors : String → Option (ℕ → Answer)) (user_id : String)
    → ((d : String) → has_connector d ≡ true → (w : ℕ → Answer) × (connectors d ≡ some w))
    → (ds : List String) → Covered connectors (map (planned user_id) (keep has_connector ds))
plan-Covered connectors user_id known [] = tt
plan-Covered connectors user_id known (d ∷ ds) = elim (Bool-cases (has_connector d)) [
  | inl e ↦ rw e (known d e, plan-Covered connectors user_id known ds)
  | inr e ↦ rw e (plan-Covered connectors user_id known ds)
]

-- With a connector behind every registered name, a cleanup settles every destination that is tracked for
-- the user and has a connector, once each and in order, as complete or failed; it sends a dead letter for
-- each failed one and no other, and publishes those of them that the topic accepts.
pub process_cleanup-SettledAll :
    (now : ℕ) (connectors : String → Option (ℕ → Answer)) (accepts : DeadLetter → Bool)
    (user_id tenant_id : String) (m : Keys)
    → ((d : String) → has_connector d ≡ true → (w : ℕ → Answer) × (connectors d ≡ some w))
    → SettledAll accepts
        (create_cleanup_plan now user_id tenant_id m)
        (process_cleanup now connectors accepts user_id tenant_id m)
unfolding process_cleanup create_cleanup_plan
process_cleanup-SettledAll now connectors accepts user_id tenant_id m known =
    process_tasks-SettledAll connectors accepts _ (
      plan-Covered connectors user_id known
        (destinations_of (get_key_status now user_id tenant_id m)))
