-- ===== src/Controller/Dispatch/Order.antt =====
-- internal/controller: which jobs a round of `dispatchLoop` hands out, and in which order.
use raft_recovery.Prelude.{
  ℕ, zero, suc, ◌+◌, ◌≡◌, refl, ap, ◌∙◌, Bool, some, List, [], ◌∷◌, String, arith, lookup, ◌||◌,
  ◌&&◌, map, take, drop, contains, eq_iff, str_eq, not, lookup-insert,
}
use raft_recovery.Types.{Job, is_pending, is_in_flight}
use raft_recovery.JobManager.{JobManager, pop_pending, mark_in_flight}
use raft_recovery.JobManager.Indexes.{has}
use raft_recovery.Wal.Event
use raft_recovery.Controller.Core.{Controller, Logs, append, with_manager}
use raft_recovery.Controller.Dispatch.{
  pop_batch, log_dispatches, mark_all, dispatch_round, Task, Clock,
}

-- Every identifier has a job, stored under its own.
abbrev pub Known : List (String × Job) → List String → Type 0
Known jobs [] = Unit {0}
Known jobs (id ∷ ids) = ((job : Job) × (lookup id jobs ≡ some job) × (job.id ≡ id)) × Known jobs ids

abbrev pub ids_of : List Job → List String
ids_of = map λ job. job.id

pop_batch_order :
    (jm : JobManager) (count : ℕ) (queue : List String)
    → Known jm.jobs queue
    → ((pop_batch (record jm { queue = queue }) count).0 ≡ record jm { queue = drop count queue })
      × (ids_of (pop_batch (record jm { queue = queue }) count).1 ≡ take count queue)
unfolding pop_batch pop_pending
pop_batch_order jm zero queue known = (refl, refl)
pop_batch_order jm (suc count) [] known = (refl, refl)
pop_batch_order jm (suc count) (id ∷ queue) known =
    let ih = pop_batch_order jm count queue known.1 in
    (ground (arith, known.0.1, ih.0), ground (arith, known.0.1, known.0.2, ih.1))

mark_in_flight_lands :
    (jm : JobManager) (now deadline : ℕ) (id k : String)
    → (has is_in_flight (lookup k (mark_in_flight jm now id deadline).0.jobs) ≡ (
        has is_in_flight (lookup k jm.jobs) || (has is_pending (lookup k jm.jobs) && str_eq id k)))
      × (has is_pending (lookup k (mark_in_flight jm now id deadline).0.jobs)
          ≡ (has is_pending (lookup k jm.jobs) && not (str_eq id k)))
      × ((mark_in_flight jm now id deadline).0.queue ≡ jm.queue)
unfolding mark_in_flight
mark_in_flight_lands jm now deadline id k = grind (arith, eq_iff id k, lookup-insert)

mark_all_lands :
    (jm : JobManager) (clock : Clock) (deadline : ℕ) (jobs : List Job) (k : String)
    → (has is_in_flight (lookup k (mark_all jm clock deadline jobs).jobs) ≡ (
        has is_in_flight (lookup k jm.jobs)
        || (has is_pending (lookup k jm.jobs) && contains k (ids_of jobs))))
      × ((mark_all jm clock deadline jobs).queue ≡ jm.queue)
unfolding mark_all contains
mark_all_lands jm clock deadline [] k = ground arith
mark_all_lands jm clock deadline (job ∷ jobs) k = ground (
  arith,
  mark_in_flight_lands jm (clock job.id) deadline job.id k,
  mark_all_lands ((mark_in_flight jm (clock job.id) job.id deadline).0) clock deadline jobs k,
)

pub log_dispatches-job_manager :
    (c : Controller) (logs : Logs) (jobs : List Job)
    → (log_dispatches c logs jobs).job_manager ≡ c.job_manager
unfolding log_dispatches append
log_dispatches-job_manager c logs [] = refl
log_dispatches-job_manager c logs (job ∷ jobs) =
    log_dispatches-job_manager (append c logs Event.dispatch job.id) logs jobs ∙ ground arith

abbrev pub task_ids : List Task → List String
task_ids = map λ task. task.id

tasks_ids :
    (timeout : ℕ) (jobs : List Job)
    → task_ids (map (λ job. record { id = job.id; payload = job.payload; timeout = timeout }) jobs)
      ≡ ids_of jobs
tasks_ids timeout [] = refl
tasks_ids timeout (job ∷ jobs) = ap (λ l. job.id ∷ l) (tasks_ids timeout jobs)

-- In flight already, or pending and among those handed out.
abbrev dispatched : JobManager → String → List String → Bool
dispatched jm k ids =
    has is_in_flight (lookup k jm.jobs) || (has is_pending (lookup k jm.jobs) && contains k ids)

-- When every identifier in the queue has a job, stored under its own: a round of the dispatch loop
-- submits tasks for the first ten in the queue, in its order, and leaves the others in the queue; and
-- a job is in flight afterwards exactly if it was, or if it was pending and among those ten.
pub dispatch_round_order :
    (c : Controller) (logs : Logs) (clock : Clock) (start : ℕ) (k : String)
    → Known c.job_manager.jobs c.job_manager.queue
    → let (after, tasks) = dispatch_round c logs clock start in
      (task_ids tasks ≡ take 10 c.job_manager.queue)
      × (after.job_manager.queue ≡ drop 10 c.job_manager.queue)
      × (has is_in_flight (lookup k after.job_manager.jobs) ≡ (
          has is_in_flight (lookup k c.job_manager.jobs)
          || (has is_pending (lookup k c.job_manager.jobs)
              && contains k (take 10 c.job_manager.queue))))
unfolding dispatch_round
dispatch_round_order c logs clock start k known =
    let popped = pop_batch c.job_manager 10 in
    let order = pop_batch_order c.job_manager 10 c.job_manager.queue known in
    let same = log_dispatches-job_manager (with_manager c popped.0) logs popped.1 in
    let lands =
      mark_all_lands (log_dispatches (with_manager c popped.0) logs popped.1).job_manager clock
        (start + c.config.task_timeout) popped.1 k in
    (
      tasks_ids c.config.task_timeout popped.1 ∙ order.1,
      lands.1 ∙ ap (λ (jm : JobManager). jm.queue) (same ∙ order.0),
      lands.0
          ∙ ap (λ jm. dispatched jm k (ids_of popped.1)) (same ∙ order.0)
          ∙ ap (dispatched c.job_manager k) order.1,
    )
