-- ===== src/JobManager/Indexes.antt =====
-- job_manager.go: the operations as steps of a machine, and what ties the indexes to the statuses.
use raft_recovery.Prelude.{
  ℕ, ◌≡◌, Bool, true, false, Option, none, some, List, [], ◌∷◌, String, arith, eq_iff, lookup,
  contains, lookup-insert, contains-add_key, contains-delete_key, contains-push, is_some, ◌⊎◌,
}
use raft_recovery.Types.{Job, JobStatus, pending, is_in_flight, is_completed, is_dead}
use raft_recovery.JobManager.{
  JobManager, Outcome, new_job_manager, enqueue, pop_pending, mark_in_flight, mark_completed,
  requeue, mark_dead, set_last_applied_index,
}

pub data Op : Type 0 where
  enqueues : ℕ → Job → Op
  pops : Op
  dispatches : ℕ → String → ℕ → Op
  completes requeues kills : ℕ → String → Op
  applies : ℕ → Op

-- What a call does and reports.
unfoldable pub perform : JobManager → Op → Outcome
perform jm (enqueues now job) = enqueue jm now job
perform jm pops = ((pop_pending jm).0, none)
perform jm (dispatches now id deadline) = mark_in_flight jm now id deadline
perform jm (completes now id) = mark_completed jm now id
perform jm (requeues now id) = requeue jm now id
perform jm (kills now id) = mark_dead jm now id
perform jm (applies index) = (set_last_applied_index jm index, none)

unfoldable pub step : JobManager → Op → JobManager
unfolding perform
step jm op = (perform jm op).0

unfoldable pub run : JobManager → List Op → JobManager
run jm [] = jm
run jm (op ∷ ops) = run (step jm op) ops

-- A stored job whose status passes the test.
abbrev pub has : (JobStatus → Bool) → Option Job → Bool
has test none = false
has test (some job) = test job.status

-- What the indexes say of one identifier.
pub record IsIndexed (jm : JobManager) (k : String) : Type 0 where
  pub in_flight_exact : contains k jm.in_flight ≡ has is_in_flight (lookup k jm.jobs)
  pub dead_exact : contains k jm.dead ≡ has is_dead (lookup k jm.jobs)
  pub completed_kept :
      (has is_completed (lookup k jm.jobs) ≡ false) ⊎ (contains k jm.completed ≡ true)
  pub completed_only :
      (contains k jm.completed ≡ false)
      ⊎ (has is_completed (lookup k jm.jobs) ≡ true)
      ⊎ (has is_dead (lookup k jm.jobs) ≡ true)
  pub queue_known : (contains k jm.queue ≡ false) ⊎ (is_some (lookup k jm.jobs) ≡ true)

new_job_manager-IsIndexed : (k : String) → IsIndexed new_job_manager k
unfolding new_job_manager lookup contains
new_job_manager-IsIndexed k = ground arith

module _ (jm : JobManager) (k : String) (v : IsIndexed jm k) where
  pub enqueue-IsIndexed : (now : ℕ) (job : Job) → IsIndexed (enqueue jm now job).0 k
  unfolding enqueue
  enqueue-IsIndexed now job = ground (
    arith,
    eq_iff job.id k,
    lookup-insert job.id k (record job { status = pending; created_at = now; updated_at = now })
        jm.jobs,
    contains-push job.id k jm.queue,
  )

  pub pop-IsIndexed : IsIndexed (pop_pending jm).0 k
  unfolding pop_pending contains
  pop-IsIndexed = ground arith

  pub mark_in_flight-IsIndexed :
      (now : ℕ) (id : String) (deadline : ℕ) → IsIndexed (mark_in_flight jm now id deadline).0 k
  unfolding mark_in_flight
  mark_in_flight-IsIndexed now id deadline =
      grind (arith, eq_iff id k, lookup-insert, contains-add_key id k jm.in_flight)

  pub mark_completed-IsIndexed : (now : ℕ) (id : String) → IsIndexed (mark_completed jm now id).0 k
  unfolding mark_completed
  mark_completed-IsIndexed now id = grind (
    arith,
    eq_iff id k,
    lookup-insert,
    contains-delete_key id k jm.in_flight,
    contains-add_key id k jm.completed,
  )

  pub requeue-IsIndexed : (now : ℕ) (id : String) → IsIndexed (requeue jm now id).0 k
  unfolding requeue
  requeue-IsIndexed now id = grind (
    arith,
    eq_iff id k,
    lookup-insert,
    contains-delete_key id k jm.in_flight,
    contains-push id k jm.queue,
  )

  pub mark_dead-IsIndexed : (now : ℕ) (id : String) → IsIndexed (mark_dead jm now id).0 k
  unfolding mark_dead
  mark_dead-IsIndexed now id = grind (
    arith,
    eq_iff id k,
    lookup-insert,
    contains-delete_key id k jm.in_flight,
    contains-add_key id k jm.dead,
  )

-- Every operation keeps the indexes in step with the statuses, for every identifier.
pub step-IsIndexed :
    (jm : JobManager) (k : String) (op : Op) → IsIndexed jm k → IsIndexed (step jm op) k
unfolding step set_last_applied_index
step-IsIndexed jm k (enqueues now job) v = enqueue-IsIndexed jm k v now job
step-IsIndexed jm k pops v = pop-IsIndexed jm k v
step-IsIndexed jm k (dispatches now id deadline) v = mark_in_flight-IsIndexed jm k v now id deadline
step-IsIndexed jm k (completes now id) v = mark_completed-IsIndexed jm k v now id
step-IsIndexed jm k (requeues now id) v = requeue-IsIndexed jm k v now id
step-IsIndexed jm k (kills now id) v = mark_dead-IsIndexed jm k v now id
step-IsIndexed jm k (applies index) v = record {
  in_flight_exact = v.in_flight_exact;
  dead_exact = v.dead_exact;
  completed_kept = v.completed_kept;
  completed_only = v.completed_only;
  queue_known = v.queue_known;
}

pub run-IsIndexed :
    (jm : JobManager) (k : String) (ops : List Op) → IsIndexed jm k → IsIndexed (run jm ops) k
unfolding run
run-IsIndexed jm k [] v = v
run-IsIndexed jm k (op ∷ ops) v = run-IsIndexed (step jm op) k ops (step-IsIndexed jm k op v)

-- After any operations on a new manager, and for every identifier: the in-flight index holds exactly
-- the jobs in flight and the dead index exactly the dead ones; the completed index holds every
-- completed job, and only jobs that are completed or dead; and the queue holds only known jobs.
pub run_new-IsIndexed : (ops : List Op) (k : String) → IsIndexed (run new_job_manager ops) k
run_new-IsIndexed ops k = run-IsIndexed new_job_manager k ops (new_job_manager-IsIndexed k)
