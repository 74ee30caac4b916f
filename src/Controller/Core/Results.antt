-- ===== src/Controller/Core/Results.antt =====
-- internal/controller/controller.go: what a failed result does to a job.
use raft_recovery.Prelude.{
  ℕ, ◌+◌, ◌≤◌, ◌<◌, ◌≡◌, true, false, Option, none, some, [], ◌∷◌, ◌++◌, String, arith, eq_iff,
  lookup, lookup-insert, ◌⊎◌,
}
use raft_recovery.Types.{Job, in_flight, is_dead, is_pending}
use raft_recovery.JobManager.{JobManager, mark_dead, requeue, get_job}
use raft_recovery.JobManager.Indexes.{IsIndexed, has}
use raft_recovery.Controller.Core.{Controller, Logs, bump_attempt, handle_failure, handle_result}

pub bump_attempt-IsIndexed :
    (jm : JobManager) (k id : String) (job : Job)
    → lookup id jm.jobs ≡ some job
    → IsIndexed jm k
    → IsIndexed (bump_attempt jm id job) k
unfolding bump_attempt
bump_attempt-IsIndexed jm k id job h v = grind (arith, eq_iff id k, lookup-insert)

-- The attempts and the status of a stored job.
abbrev pub attempt_of : Option Job → ℕ
attempt_of none = 0
attempt_of (some job) = job.attempt

-- A failed job in flight whose log entry is written is dead if its attempts, with this one, reach the
-- limit; otherwise it is pending again, at the end of the queue, and its attempts have grown by two.
pub handle_result_failed :
    (c : Controller) (logs : Logs) (now : ℕ) (id : String) (job : Job)
    → lookup id c.job_manager.jobs ≡ some job
    → job.status ≡ in_flight
    → logs job.id ≡ true
    → let after = handle_result c logs now (record { job_id = id; success = false }) in
      ((c.config.max_retry ≤ job.attempt + 1)
        × (has is_dead (lookup id after.job_manager.jobs) ≡ true)
        × (attempt_of (lookup id after.job_manager.jobs) ≡ job.attempt + 1)
        × (after.job_manager.queue ≡ c.job_manager.queue))
      ⊎ ((job.attempt + 1 < c.config.max_retry)
          × (has is_pending (lookup id after.job_manager.jobs) ≡ true)
          × (attempt_of (lookup id after.job_manager.jobs) ≡ job.attempt + 2)
          × (after.job_manager.queue ≡ c.job_manager.queue ++ id ∷ []))
unfolding handle_result handle_failure get_job mark_dead requeue bump_attempt
handle_result_failed c logs now id job h s l = grind (arith, eq_iff id id, lookup-insert)
