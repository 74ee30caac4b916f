-- ===== src/Controller/Dispatch/Timeless.antt =====
-- internal/jobmanager/job_manager.go: what `MarkInFlight` leaves but for the times that it writes.
use raft_recovery.Prelude.{
  ℕ, ◌≡◌, refl, sym, ap, ◌∙◌, none, some, List, [], ◌∷◌, String, arith, lookup, insert, add_key,
  if◌then◌else◌,
}
use raft_recovery.Types.{Job, in_flight, is_pending}
use raft_recovery.JobManager.{JobManager, mark_in_flight}
use raft_recovery.Controller.Dispatch.{Clock, mark_all}

-- A job, and a manager, without the times that a mark writes.
abbrev pub timeless_job : Job → Job
timeless_job job = record job { deadline = none; updated_at = 0 }

unfoldable pub timeless_jobs : List (String × Job) → List (String × Job)
timeless_jobs [] = []
timeless_jobs ((k, job) ∷ jobs) = (k, timeless_job job) ∷ timeless_jobs jobs

abbrev pub timeless : JobManager → JobManager
timeless jm = record jm { jobs = timeless_jobs jm.jobs }

lookup-timeless_jobs :
    (k : String) (jobs : List (String × Job))
    → lookup k (timeless_jobs jobs)
      ≡ elim (lookup k jobs) [ none ↦ none | some job ↦ some (timeless_job job) ]
unfolding timeless_jobs lookup
lookup-timeless_jobs k [] = refl
lookup-timeless_jobs k ((q, job) ∷ jobs) = ground (arith, lookup-timeless_jobs k jobs)

timeless_jobs-insert :
    (k : String) (job : Job) (jobs : List (String × Job))
    → timeless_jobs (insert k job jobs) ≡ insert k (timeless_job job) (timeless_jobs jobs)
unfolding timeless_jobs insert
timeless_jobs-insert k job [] = refl
timeless_jobs-insert k job ((q, old) ∷ jobs) = ground (arith, timeless_jobs-insert k job jobs)

-- A mark, on a manager without the times.
mark : String → JobManager → JobManager
mark id jm = elim (lookup id jm.jobs) [
  | none ↦ jm
  | some job ↦
      if is_pending job.status
      then record jm {
        jobs = insert id (timeless_job (record job { status = in_flight })) jm.jobs;
        in_flight = add_key id jm.in_flight;
      }
      else jm
]

timeless-mark_in_flight :
    (jm : JobManager) (now : ℕ) (id : String) (deadline : ℕ)
    → timeless (mark_in_flight jm now id deadline).0 ≡ mark id (timeless jm)
unfolding mark_in_flight mark
timeless-mark_in_flight jm now id deadline =
    grind (arith, lookup-timeless_jobs id jm.jobs, timeless_jobs-insert)

mark_all_same :
    (clock clock' : Clock) (deadline deadline' : ℕ) (a b : JobManager) (jobs : List Job)
    → timeless a ≡ timeless b
    → timeless (mark_all a clock deadline jobs) ≡ timeless (mark_all b clock' deadline' jobs)
unfolding mark_all
mark_all_same clock clock' deadline deadline' a b [] same = same
mark_all_same clock clock' deadline deadline' a b (job ∷ jobs) same =
    mark_all_same clock clock' deadline deadline'
      ((mark_in_flight a (clock job.id) job.id deadline).0)
      ((mark_in_flight b (clock' job.id) job.id deadline').0) jobs
      (timeless-mark_in_flight a (clock job.id) job.id deadline
        ∙ ap (mark job.id) same
        ∙ sym (timeless-mark_in_flight b (clock' job.id) job.id deadline'))

-- At whatever times a batch is marked, what is left is the same but for the times.
pub timeless-mark_all :
    (jm : JobManager) (clock clock' : Clock) (deadline deadline' : ℕ) (jobs : List Job)
    → timeless (mark_all jm clock deadline jobs) ≡ timeless (mark_all jm clock' deadline' jobs)
timeless-mark_all jm clock clock' deadline deadline' jobs =
    mark_all_same clock clock' deadline deadline' jm jm jobs refl
