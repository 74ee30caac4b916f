-- ===== src/Worker/Pool/Remote.antt =====
-- internal/worker/worker_pool.go: the loops of a pool that works for a source of jobs.
pub mod Failures
mod Tests
use raft_recovery.Prelude.{
  ℕ, Bool, true, false, Option, none, some, List, [], ◌∷◌, ◌++◌, String, length, ltb, if◌then◌else◌,
  ◌&&◌, not,
}
use raft_recovery.Types.{Job, JobStatus, completed, dead}
use raft_recovery.Worker.Pool.{Pool, Task, Result}

abbrev pub task_of : Job → Task
task_of job = record { id = job.id; payload = job.payload; timeout = job.timeout }

-- How the submission of the polled jobs goes on: all sent, waiting with the jobs that are left, ended
-- by the stop signal, or a panic, since `Stop` closes the channel of tasks.
pub data Submission : Type 0 where
  all_sent stopped_loop send_panics : Submission
  blocked : List Job → Submission

-- The inner loop of `pollerLoop`. On a stopped pool both cases of the select are ready, the send being
-- one on a closed channel; `take_stop` says which is taken.
unfoldable pub submit_jobs : Pool → Bool → List Job → Pool × Submission
submit_jobs p take_stop [] = (p, all_sent)
submit_jobs p take_stop (job ∷ jobs) =
    let rest = submit_jobs (record p { task_ch = p.task_ch ++ task_of job ∷ [] }) take_stop jobs in
    if p.stopped
    then (p, if take_stop then stopped_loop else send_panics)
    else if ltb (length p.task_ch) p.buffer_size
    then rest
    else (p, blocked (job ∷ jobs))

-- A round of `pollerLoop` at a tick, with what `Poll` returned.
unfoldable pub poller_round : Pool → Bool → Option (List Job) → Pool × Submission
unfolding submit_jobs
poller_round p take_stop none = (p, all_sent)
poller_round p take_stop (some jobs) = submit_jobs p take_stop jobs

abbrev pub ack_status : Result → JobStatus
ack_status result = if result.success then completed else dead

-- A round of `ackLoop`: it ends, waits, or acknowledges a result to the source.
pub data Acked : Type 0 where
  ended waiting : Acked
  acked : String → JobStatus → Acked

unfoldable pub ack_round : Pool → Bool → Pool × Acked
ack_round p take_stop = elim p.result_ch [
  | [] ↦ (p, if p.stopped then ended else waiting)
  | result ∷ results ↦
      if p.stopped && take_stop
      then (p, ended)
      else (record p { result_ch = results }, acked result.job_id (ack_status result))
]
