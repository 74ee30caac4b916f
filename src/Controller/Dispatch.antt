-- ===== src/Controller/Dispatch.antt =====
-- internal/controller/controller.go and job_source_impl.go: `dispatchLoop`, `Poll`, `Acknowledge`.
pub mod Order
pub mod Timeless
pub mod Polling
mod Tests
use raft_recovery.Prelude.{
  ℕ, zero, suc, ◌+◌, Bool, true, false, Option, none, some, List, [], ◌∷◌, String, map,
  if◌then◌else◌,
}
use raft_recovery.Types.{Job}
use raft_recovery.JobManager.{JobManager, pop_pending, mark_in_flight, get_job}
use raft_recovery.Wal.Event
use raft_recovery.Controller.Core.{
  Controller, Logs, WorkResult, append, with_manager, handle_result,
}

-- The loop that pops up to `count` jobs; it ends at the first nil.
unfoldable pub pop_batch : JobManager → ℕ → JobManager × List Job
pop_batch jm zero = (jm, [])
pop_batch jm (suc count) =
    let (jm', popped) = pop_pending jm in
    let rest = pop_batch jm' count in
    elim popped [ none ↦ (jm', []) | some job ↦ (rest.0, job ∷ rest.1) ]

-- Phase 1 of a round of `dispatchLoop`: a failing append is only reported.
unfoldable pub log_dispatches : Controller → Logs → List Job → Controller
unfolding append
log_dispatches c logs [] = c
log_dispatches c logs (job ∷ jobs) = log_dispatches (append c logs Event.dispatch job.id) logs jobs

-- What `MarkInFlight` reads from the clock, for each job.
abbrev pub Clock : Type 0
Clock = String → ℕ

-- Phase 2: a job that cannot be marked is only reported.
unfoldable pub mark_all : JobManager → Clock → ℕ → List Job → JobManager
mark_all jm clock deadline [] = jm
mark_all jm clock deadline (job ∷ jobs) =
    mark_all ((mark_in_flight jm (clock job.id) job.id deadline).0) clock deadline jobs

pub record Task : Type 0 where
  pub id : String
  pub payload : String
  pub timeout : ℕ

-- A round of `dispatchLoop` that no other thread interrupts, with the tasks that it submits. The deadline
-- is counted from `start`, which is read after phase 1.
unfoldable pub dispatch_round : Controller → Logs → Clock → ℕ → Controller × List Task
unfolding pop_batch log_dispatches mark_all
dispatch_round c logs clock start =
    let (popped, jobs) = pop_batch c.job_manager 10 in
    let logged = log_dispatches (with_manager c popped) logs jobs in
    (
      with_manager logged (mark_all logged.job_manager clock (start + c.config.task_timeout) jobs),
      map (λ job. record { id = job.id; payload = job.payload; timeout = c.config.task_timeout })
          jobs,
    )

-- The loop of `Poll`: each job is logged and marked in turn.
unfoldable pub poll_all : Controller → Logs → Clock → ℕ → List Job → Controller
unfolding append
poll_all c logs clock deadline [] = c
poll_all c logs clock deadline (job ∷ jobs) =
    let c' = append c logs Event.dispatch job.id in
    poll_all (with_manager c' ((mark_in_flight c'.job_manager (clock job.id) job.id deadline).0))
      logs clock deadline jobs

-- What a caller of `Poll` reads through the pointers that it got.
abbrev pub refreshed : JobManager → List Job → List (Option Job)
refreshed jm = map λ job. get_job jm job.id

pub data Polled : Type 0 where
  pool_closed : Polled
  polled : List Job → Polled

-- `Poll`: the jobs returned are those popped, whether they could be marked or not. The deadline is
-- counted from `start`, which is read before the first append.
unfoldable pub poll : Controller → Logs → Clock → ℕ → ℕ → Controller × Polled
unfolding pop_batch poll_all
poll c logs clock start max_jobs =
    let (popped, jobs) = pop_batch c.job_manager max_jobs in
    if c.stopped then (c, pool_closed) else (
      poll_all (with_manager c popped) logs clock (start + c.config.task_timeout) jobs,
      polled jobs,
    )

-- `Acknowledge`; without a result it is an error.
unfoldable pub acknowledge : Controller → Logs → ℕ → Option WorkResult → Controller × Bool
unfolding handle_result
acknowledge c logs now none = (c, false)
acknowledge c logs now (some result) = (handle_result c logs now result, true)
