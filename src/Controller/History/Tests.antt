-- ===== src/Controller/History/Tests.antt =====
-- internal/controller: an hour of a controller.
use raft_recovery.Prelude.{ℕ, true, false, none, List, [], ◌∷◌, String}
use raft_recovery.Types.{Job, pending, completed}
use raft_recovery.JobManager.Indexes.{IsIndexed}
use raft_recovery.Controller.Core.{Config, new_controller}
use raft_recovery.Controller.Recover.{enqueue_command, ack_command}
use raft_recovery.Controller.History.{
  Call, Turn, submits, hands_out, polls, reports, ticks, commits, run,
}
use raft_recovery.Controller.History.Invariant.{history-IsIndexed}

abbrev job : String → Job
job id = record {
  id = id;
  payload = "{}";
  status = pending;
  attempt = 0;
  timeout = 5;
  deadline = none;
  created_at = 0;
  updated_at = 0;
  worker_id = "";
}

abbrev at : ℕ → Call → Turn
at now call = record { call = call; logs = λ id. true; now = now }

abbrev config : Config
config = record { task_timeout = 5; max_retry = 3 }

abbrev hour : List Turn
hour =
    at 1 (submits (job "a" ∷ []))
    ∷ at 2 (hands_out (λ id. 2) 2)
    ∷ at 3 (reports (record { job_id = "a"; success = false }))
    ∷ at 4 (polls (λ id. 5) 4 2)
    ∷ at 20 ticks
    ∷ at 21 (commits (enqueue_command (job "b" ∷ [])) 1)
    ∷ at 22 (commits (ack_command "b" completed) 2)
    ∷ []

history-IsIndexed_example : IsIndexed (run (new_controller config) hour).job_manager "a"
history-IsIndexed_example = history-IsIndexed config hour "a"
