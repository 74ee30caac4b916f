-- ===== src/Controller/Dispatchers/Tests.antt =====
-- internal/controller: two dispatchers, of which one has popped a dead job with another.
use raft_recovery.Prelude.{
  refl, [], ◌∷◌, true, lookup, insert, contains, add_key, delete_key, String, none,
}
use raft_recovery.Types.{Job, pending, dead}
use raft_recovery.JobManager.{
  new_job_manager, enqueue, pop_pending, mark_dead, get_job, is_completed, is_dead,
  set_last_applied_index,
}
use raft_recovery.Controller.Core.{
  Config, new_controller, append, enqueue_jobs, log_enqueues, enqueue_all,
}
use raft_recovery.Controller.Dispatch.{pop_batch}
use raft_recovery.Controller.Recover.{ack_command, apply_message, handle_raft_command}
use raft_recovery.Controller.History.{submits, commits}
use raft_recovery.Controller.History as History
use raft_recovery.Controller.Dispatchers.{
  Dispatchers, Steps, here, next, pops, logs_one, beside, take_batch, log_one, batch_hand, fresh,
}
use raft_recovery.Controller.Dispatchers.Tally.{Sole, held}
use raft_recovery.Controller.Dispatchers.Exclusive.{dispatch_exclusive}

abbrev job : String → Job
job id = record {
  id = id;
  payload = "{}";
  status = pending;
  attempt = 0;
  timeout = 5;
  deadline = none;
  created_at = 0;
  updated_at = 0;
  worker_id = "";
}

abbrev config : Config
config = record { task_timeout = 5; max_retry = 3 }

popped : (s : Dispatchers) × Steps (fresh config 2) s
unfolding History.step enqueue_jobs log_enqueues enqueue_all enqueue append new_controller
    new_job_manager apply_message handle_raft_command is_completed is_dead get_job mark_dead
    set_last_applied_index take_batch pop_batch pop_pending batch_hand log_one lookup insert
    contains add_key delete_key
popped = (
  _,
  next
      (next
        (next (next here (beside (submits (job "a" ∷ job "b" ∷ [])) (λ id. true) 1 refl))
          (beside (commits (ack_command "b" dead) 1) (λ id. true) 2 refl))
        (pops 1 refl))
      (logs_one 1 (λ id. true) _ _ _ refl),
)

dispatch_exclusive_example : Sole (held "b" popped.0.hands) "b" popped.0.controller.job_manager
dispatch_exclusive_example = dispatch_exclusive config 2 {s = popped.0} "b" popped.1
