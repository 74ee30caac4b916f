-- ===== src/Controller/Core/Tests.antt =====
-- internal/controller/controller.go: a failed job at its second attempt of three.
use raft_recovery.Prelude.{◌+◌, ◌<◌, ◌≤◌, ◌≡◌, ◌⊎◌, refl, true, false, some, [], ◌∷◌, ◌++◌, lookup}
use raft_recovery.Types.{Job, in_flight, is_dead, is_pending}
use raft_recovery.JobManager.Indexes.{has}
use raft_recovery.Controller.Core.{Controller, Logs, handle_result}
use raft_recovery.Controller.Core.Results.{attempt_of, handle_result_failed}

abbrev job : Job
job = record {
  id = "a";
  payload = "{}";
  status = in_flight;
  attempt = 1;
  timeout = 5;
  deadline = some 7;
  created_at = 0;
  updated_at = 0;
  worker_id = "w";
}

abbrev busy : Controller
busy = record {
  job_manager = record {
    jobs = ("a", job) ∷ [];
    queue = [];
    in_flight = "a" ∷ [];
    completed = [];
    dead = [];
    last_applied_index = 0;
  };
  wal = [];
  config = record { task_timeout = 5; max_retry = 3 };
  stopped = false;
}

abbrev all_logged : Logs
all_logged id = true

busy_job : lookup "a" busy.job_manager.jobs ≡ some job
unfolding lookup
busy_job = refl

handle_result_failed_example :
    let after = handle_result busy all_logged 9 (record { job_id = "a"; success = false }) in
    ((3 ≤ 1 + 1)
      × (has is_dead (lookup "a" after.job_manager.jobs) ≡ true)
      × (attempt_of (lookup "a" after.job_manager.jobs) ≡ 1 + 1)
      × (after.job_manager.queue ≡ []))
    ⊎ ((1 + 1 < 3)
        × (has is_pending (lookup "a" after.job_manager.jobs) ≡ true)
        × (attempt_of (lookup "a" after.job_manager.jobs) ≡ 1 + 2)
        × (after.job_manager.queue ≡ [] ++ "a" ∷ []))
handle_result_failed_example = handle_result_failed busy all_logged 9 "a" job busy_job refl refl
