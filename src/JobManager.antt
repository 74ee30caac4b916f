-- ===== src/JobManager.antt =====
-- internal/jobmanager/job_manager.go: the life of a job. A method that holds the mutex is one step;
-- it takes the clock as `now` and returns the new state, with the error as an option.
--
-- The index maps hold the very pointers that `jobs` holds under the same keys: each write of an
-- index stores what was just read from `jobs`, and `jobs` gets a new pointer only for a new key.
-- So an index carries no more than its keys, and a job is read through `jobs`.
pub mod Indexes
pub mod Lifecycle
pub mod Recovery
pub mod Spec
mod Tests
use raft_recovery.Prelude.{
  ℕ, ◌+◌, Bool, false, Option, none, some, List, [], ◌∷◌, ◌++◌, String, length, ltb, if◌then◌else◌,
  lookup, insert, contains, add_key, delete_key, ◌||◌,
}
use raft_recovery.Types.{
  Job, JobStatus, pending, in_flight, completed, dead, other, is_pending, is_in_flight,
  SnapshotData,
}

pub data JobError : Type 0 where
  duplicate_job not_in_flight job_not_found not_pending : JobError

pub record JobManager : Type 0 where
  pub jobs : List (String × Job)
  pub queue : List String
  pub in_flight : List String
  pub completed : List String
  pub dead : List String
  pub last_applied_index : ℕ

abbrev pub Outcome : Type 0
Outcome = JobManager × Option JobError

unfoldable pub new_job_manager : JobManager
new_job_manager = record {
  jobs = [];
  queue = [];
  in_flight = [];
  completed = [];
  dead = [];
  last_applied_index = 0;
}

unfoldable pub set_last_applied_index : JobManager → ℕ → JobManager
set_last_applied_index jm index = record jm { last_applied_index = index }

unfoldable pub get_job : JobManager → String → Option Job
get_job jm id = lookup id jm.jobs

unfoldable pub enqueue : JobManager → ℕ → Job → Outcome
enqueue jm now job = elim (lookup job.id jm.jobs) [
  | some _ ↦ (jm, some duplicate_job)
  | none ↦ (
    record jm {
      jobs =
          insert job.id (record job { status = pending; created_at = now; updated_at = now })
            jm.jobs;
      queue = jm.queue ++ job.id ∷ [];
    },
    none,
  )
]

-- The head of the queue leaves it, also when no job has that identifier.
unfoldable pub pop_pending : JobManager → JobManager × Option Job
pop_pending jm = elim jm.queue [
  | [] ↦ (jm, none)
  | id ∷ rest ↦ (record jm { queue = rest }, lookup id jm.jobs)
]

unfoldable pub mark_in_flight : JobManager → ℕ → String → ℕ → Outcome
mark_in_flight jm now id deadline = elim (lookup id jm.jobs) [
  | none ↦ (jm, some job_not_found)
  | some job ↦
      if is_pending job.status
      then (
        record jm {
          jobs =
              insert id
                (record job { status = in_flight; deadline = some deadline; updated_at = now })
                jm.jobs;
          in_flight = add_key id jm.in_flight;
        },
        none,
      )
      else (jm, some not_pending)
]

-- What every method that takes a job from its worker writes.
abbrev released : Job → JobStatus → ℕ → Job
released job status now = record job {
  status = status;
  deadline = none;
  worker_id = "";
  updated_at = now;
}

unfoldable pub mark_completed : JobManager → ℕ → String → Outcome
mark_completed jm now id = elim (lookup id jm.jobs) [
  | none ↦ (jm, some job_not_found)
  | some job ↦
      if is_in_flight job.status
      then (
        record jm {
          jobs = insert id (released job completed now) jm.jobs;
          in_flight = delete_key id jm.in_flight;
          completed = add_key id jm.completed;
        },
        none,
      )
      else (jm, some not_in_flight)
]

unfoldable pub requeue : JobManager → ℕ → String → Outcome
requeue jm now id = elim (lookup id jm.jobs) [
  | none ↦ (jm, some job_not_found)
  | some job ↦
      if is_in_flight job.status
      then (
        record jm {
          jobs =
              insert id (released (record job { attempt = job.attempt + 1 }) pending now) jm.jobs;
          in_flight = delete_key id jm.in_flight;
          queue = jm.queue ++ id ∷ [];
        },
        none,
      )
      else (jm, some not_in_flight)
]

unfoldable pub mark_dead : JobManager → ℕ → String → Outcome
mark_dead jm now id = elim (lookup id jm.jobs) [
  | none ↦ (jm, some job_not_found)
  | some job ↦ (
    record jm {
      jobs = insert id (released job dead now) jm.jobs;
      in_flight = delete_key id jm.in_flight;
      dead = add_key id jm.dead;
    },
    none,
  )
]

-- The test `job.Deadline != nil && *job.Deadline < nowMs` of a job.
unfoldable pub is_expired : ℕ → Option Job → Bool
is_expired now none = false
is_expired now (some job) = elim job.deadline [ none ↦ false | some deadline ↦ ltb deadline now ]

unfoldable pub expired_among : JobManager → ℕ → List String → List String
unfolding is_expired
expired_among jm now [] = []
expired_among jm now (id ∷ ids) =
    let rest = expired_among jm now ids in
    if is_expired now (lookup id jm.jobs) then id ∷ rest else rest

unfoldable pub get_expired_jobs : JobManager → ℕ → List String
unfolding expired_among
get_expired_jobs jm now = expired_among jm now jm.in_flight

unfoldable pub get_all_in_flight_jobs : JobManager → List String
get_all_in_flight_jobs jm = jm.in_flight

pub record Stats : Type 0 where
  pub pending : ℕ
  pub in_flight : ℕ
  pub completed : ℕ
  pub dead : ℕ

unfoldable pub stats : JobManager → Stats
stats jm = record {
  pending = length jm.queue;
  in_flight = length jm.in_flight;
  completed = length jm.completed;
  dead = length jm.dead;
}

-- One round of the loop of `Restore`.
unfoldable pub restore_job : JobManager → String → Job → JobManager
restore_job jm id job =
    let jm' : JobManager = record jm { jobs = insert id job jm.jobs } in
    elim job.status [
      | pending ↦ record jm' { queue = jm.queue ++ id ∷ [] }
      | in_flight ↦ record jm' { in_flight = add_key id jm.in_flight }
      | completed ↦ record jm' { completed = add_key id jm.completed }
      | dead ↦ record jm' { dead = add_key id jm.dead }
      | other s ↦ jm'
    ]

unfoldable pub restore_all : JobManager → List (String × Job) → JobManager
unfolding restore_job
restore_all jm [] = jm
restore_all jm ((id, job) ∷ rest) = restore_all (restore_job jm id job) rest

-- `Restore` keeps only the applied index; it never fails.
unfoldable pub restore : JobManager → SnapshotData → JobManager
unfolding restore_all
restore jm snapshot =
    restore_all (record jm { jobs = []; queue = []; in_flight = []; completed = []; dead = [] })
      snapshot.jobs

unfoldable pub snapshot : JobManager → SnapshotData
snapshot jm = record { jobs = jm.jobs; schema_ver = 1; last_seq = 0 }

unfoldable pub active_jobs : List (String × Job) → List (String × Job)
active_jobs [] = []
active_jobs ((id, job) ∷ rest) =
    let more = active_jobs rest in
    if is_pending job.status || is_in_flight job.status then (id, job) ∷ more else more

unfoldable pub partial_snapshot : JobManager → SnapshotData
unfolding active_jobs
partial_snapshot jm = record { jobs = active_jobs jm.jobs; schema_ver = 2; last_seq = 0 }

unfoldable pub is_completed : JobManager → String → Bool
is_completed jm id = contains id jm.completed

unfoldable pub is_dead : JobManager → String → Bool
is_dead jm id = contains id jm.dead

unfoldable pub get_total_jobs : JobManager → ℕ
get_total_jobs jm = length jm.jobs
