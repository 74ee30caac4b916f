-- ===== src/Controller/Core.antt =====
-- internal/controller/controller.go: the coordinator's state, enqueueing, results and timeouts. A call
-- of `wal.Append` returns when the event is on disk or has failed; whether it fails is an argument
-- `logs` of each operation, by the identifier of the job. Metrics, logging and statistics of time are
-- left out.
pub mod Results
mod Tests
use raft_recovery.Prelude.{
  ℕ, ◌+◌, Bool, true, false, Option, none, some, List, [], ◌∷◌, ◌++◌, String, insert, lookup, leb,
  if◌then◌else◌,
}
use raft_recovery.Types.{Job}
use raft_recovery.JobManager.{
  JobManager, JobError, Stats, new_job_manager, enqueue, pop_pending, mark_in_flight,
  mark_completed, requeue, mark_dead, get_job, get_expired_jobs, stats, get_total_jobs,
}
use raft_recovery.Wal.Event.{EventType}
use raft_recovery.Wal.Event

pub record Config : Type 0 where
  pub task_timeout : ℕ
  pub max_retry : ℕ

-- An event that the log has taken: its type and its job.
pub record Logged : Type 0 where
  pub type : EventType
  pub job_id : String

pub record Controller : Type 0 where
  pub job_manager : JobManager
  pub wal : List Logged
  pub config : Config
  pub stopped : Bool

abbrev pub Logs : Type 0
Logs = String → Bool

unfoldable pub new_controller : Config → Controller
new_controller config = record {
  job_manager = new_job_manager;
  wal = [];
  config = config;
  stopped = false;
}

-- The event goes to the log, if the append succeeds.
unfoldable pub append : Controller → Logs → EventType → String → Controller
append c logs type id =
    if logs id then record c { wal = c.wal ++ record { type = type; job_id = id } ∷ [] } else c

abbrev pub with_manager : Controller → JobManager → Controller
with_manager c jm = record c { job_manager = jm }

pub data EnqueueError : Type 0 where
  append_failed : String → EnqueueError
  enqueue_failed : String → JobError → EnqueueError

-- Phase 1 of `EnqueueJobs`: the first failing append ends it.
unfoldable pub log_enqueues : Controller → Logs → List Job → Controller × Option EnqueueError
unfolding append
log_enqueues c logs [] = (c, none)
log_enqueues c logs (job ∷ jobs) =
    let rest = log_enqueues (append c logs Event.enqueue job.id) logs jobs in
    if logs job.id then rest else (c, some (append_failed job.id))

-- Phase 2: the first job that the manager refuses ends it.
unfoldable pub enqueue_all : JobManager → ℕ → List Job → JobManager × Option EnqueueError
enqueue_all jm now [] = (jm, none)
enqueue_all jm now (job ∷ jobs) =
    let (jm', error) = enqueue jm now job in
    let rest = enqueue_all jm' now jobs in
    elim error [ none ↦ rest | some e ↦ (jm', some (enqueue_failed job.id e)) ]

unfoldable pub enqueue_jobs : Controller → Logs → ℕ → List Job → Controller × Option EnqueueError
unfolding log_enqueues enqueue_all
enqueue_jobs c logs now jobs =
    let (logged, error) = log_enqueues c logs jobs in
    elim error [
      | some e ↦ (logged, some e)
      | none ↦
          let (jm, error') = enqueue_all logged.job_manager now jobs in
          (with_manager logged jm, error')
    ]

-- `job.Attempt++` through the pointer that the manager holds under `id`.
unfoldable pub bump_attempt : JobManager → String → Job → JobManager
bump_attempt jm id job = record jm {
  jobs = insert id (record job { attempt = job.attempt + 1 }) jm.jobs;
}

-- What the worker reports.
pub record WorkResult : Type 0 where
  pub job_id : String
  pub success : Bool

unfoldable pub handle_success : Controller → Logs → ℕ → String → Job → Controller
unfolding append
handle_success c logs now id job =
    let c' = append c logs Event.ack job.id in
    if logs job.id then with_manager c' ((mark_completed c'.job_manager now id).0) else c

unfoldable pub handle_failure : Controller → Logs → ℕ → String → Job → Controller
unfolding append bump_attempt
handle_failure c logs now id job =
    let bumped = with_manager c (bump_attempt c.job_manager id job) in
    if leb c.config.max_retry (job.attempt + 1)
    then if logs job.id
      then with_manager (append bumped logs Event.dead job.id)
          ((mark_dead bumped.job_manager now id).0)
      else bumped
    else if logs job.id
    then with_manager (append bumped logs Event.retry job.id)
        ((requeue bumped.job_manager now id).0)
    else bumped

unfoldable pub handle_result : Controller → Logs → ℕ → WorkResult → Controller
unfolding handle_success handle_failure
handle_result c logs now result = elim (get_job c.job_manager result.job_id) [
  | none ↦ c
  | some job ↦
      if result.success
      then handle_success c logs now result.job_id job
      else handle_failure c logs now result.job_id job
]

-- One round of the loop of `timeoutLoop` over the expired jobs.
unfoldable pub time_out : Controller → Logs → ℕ → String → Controller
unfolding append bump_attempt
time_out c logs now id = elim (get_job c.job_manager id) [
  | none ↦ c
  | some job ↦
      let c' = append c logs Event.timeout job.id in
      let bumped = bump_attempt c.job_manager id job in
      if logs job.id
      then with_manager c' (
          if leb c.config.max_retry (job.attempt + 1)
          then (mark_dead bumped now id).0
          else (requeue bumped now id).0)
      else c
]

unfoldable pub time_out_all : Controller → Logs → ℕ → List String → Controller
unfolding time_out
time_out_all c logs now [] = c
time_out_all c logs now (id ∷ ids) = time_out_all (time_out c logs now id) logs now ids

-- A tick of `timeoutLoop`.
unfoldable pub timeout_tick : Controller → Logs → ℕ → Controller
unfolding time_out_all
timeout_tick c logs now = time_out_all c logs now (get_expired_jobs c.job_manager now)

unfoldable pub get_stats : Controller → Stats
get_stats c = stats c.job_manager

unfoldable pub get_total : Controller → ℕ
get_total c = get_total_jobs c.job_manager
