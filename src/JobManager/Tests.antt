-- ===== src/JobManager/Tests.antt =====
-- job_manager.go: the theorems on small managers.
use raft_recovery.Prelude.{ℕ, ◌≡◌, Option, none, some, List, [], ◌∷◌, String, lookup, contains}
use raft_recovery.Types.{Job, JobStatus, pending, in_flight, dead, completed}
use raft_recovery.JobManager.{JobManager, new_job_manager}
use raft_recovery.JobManager.Indexes.{
  Op, IsIndexed, enqueues, pops, dispatches, completes, requeues, kills, applies, step, run,
  run_new-IsIndexed,
}
use raft_recovery.JobManager.Spec.{
  view, spec_run, spec_answers, answers, nothing, is_running, run_new-refines,
}
use raft_recovery.JobManager.Lifecycle.{Moves, step-Moves}

abbrev job : String → JobStatus → Option ℕ → Job
job id status deadline = record {
  id = id;
  payload = "{}";
  status = status;
  attempt = 1;
  timeout = 5;
  deadline = deadline;
  created_at = 0;
  updated_at = 0;
  worker_id = "";
}

-- Two jobs arrive, one is dispatched and retried, the other completed and killed.
abbrev busy_day : List Op
busy_day =
    enqueues 1 (job "a" dead none)
    ∷ enqueues 2 (job "b" pending none)
    ∷ pops
    ∷ dispatches 3 "a" 9
    ∷ requeues 4 "a"
    ∷ dispatches 5 "b" 9
    ∷ completes 6 "b"
    ∷ kills 7 "b"
    ∷ applies 8
    ∷ []

run_new-IsIndexed_example : IsIndexed (run new_job_manager busy_day) "b"
run_new-IsIndexed_example = run_new-IsIndexed busy_day "b"

abbrev stored : List (String × Job)
stored =
    ("a", job "a" pending none)
    ∷ ("b", job "b" in_flight (some 7))
    ∷ ("c", job "c" dead none)
    ∷ ("d", job "d" completed none)
    ∷ []

abbrev busy : JobManager
busy = record {
  jobs = stored;
  queue = "a" ∷ [];
  in_flight = "b" ∷ [];
  completed = "d" ∷ [];
  dead = "c" ∷ [];
  last_applied_index = 0;
}

step-Moves_example : Moves (lookup "b" stored) (lookup "b" (step busy (requeues 9 "b")).jobs)
step-Moves_example = step-Moves busy "b" (requeues 9 "b")

run_new-refines_example :
    let jm = run new_job_manager busy_day in
    let s = spec_run nothing busy_day in
    (answers new_job_manager busy_day ≡ spec_answers nothing busy_day)
    × (view jm ≡ s)
    × ((k : String) → contains k jm.in_flight ≡ is_running s k)
run_new-refines_example = run_new-refines busy_day
