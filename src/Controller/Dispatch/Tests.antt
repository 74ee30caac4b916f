-- ===== src/Controller/Dispatch/Tests.antt =====
-- internal/controller: a round of `dispatchLoop` over a queue of two.
use raft_recovery.Prelude.{◌≡◌, refl, true, false, none, [], ◌∷◌, lookup, contains, String}
use raft_recovery.Types.{Job, pending, is_in_flight}
use raft_recovery.JobManager.Indexes.{has}
use raft_recovery.Controller.Core.{Controller, Logs}
use raft_recovery.Controller.Dispatch.{dispatch_round, poll}
use raft_recovery.Controller.Dispatch.Order.{Known, task_ids, dispatch_round_order}
use raft_recovery.Controller.Dispatch.Timeless.{timeless}
use raft_recovery.Controller.Dispatch.Polling.{poll-dispatch_round}

abbrev job : String → Job
job id = record {
  id = id;
  payload = "{}";
  status = pending;
  attempt = 0;
  timeout = 5;
  deadline = none;
  created_at = 0;
  updated_at = 0;
  worker_id = "";
}

abbrev waiting : Controller
waiting = record {
  job_manager = record {
    jobs = ("a", job "a") ∷ ("b", job "b") ∷ [];
    queue = "b" ∷ "a" ∷ [];
    in_flight = [];
    completed = [];
    dead = [];
    last_applied_index = 0;
  };
  wal = [];
  config = record { task_timeout = 5; max_retry = 3 };
  stopped = false;
}

abbrev none_logged : Logs
none_logged id = false

waiting-Known : Known waiting.job_manager.jobs waiting.job_manager.queue
unfolding lookup
waiting-Known = ((job "b", refl, refl), ((job "a", refl, refl), tt))

dispatch_round_order_example :
    let (after, tasks) = dispatch_round waiting none_logged (λ id. 10) 9 in
    (task_ids tasks ≡ "b" ∷ "a" ∷ [])
    × (after.job_manager.queue ≡ [])
    × (has is_in_flight (lookup "a" after.job_manager.jobs) ≡ true)
unfolding lookup contains
dispatch_round_order_example =
    dispatch_round_order waiting none_logged (λ id. 10) 9 "a" waiting-Known

poll-dispatch_round_example :
    let polled' = (poll waiting none_logged (λ id. 9) 8 10).0 in
    let looped = (dispatch_round waiting none_logged (λ id. 12) 11).0 in
    (polled'.wal ≡ looped.wal) × (timeless polled'.job_manager ≡ timeless looped.job_manager)
poll-dispatch_round_example = poll-dispatch_round waiting none_logged (λ id. 9) (λ id. 12) 8 11 refl
