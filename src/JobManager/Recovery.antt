-- ===== src/JobManager/Recovery.antt =====
-- job_manager.go: `Snapshot`, `PartialSnapshot`, `Restore` and `GetExpiredJobs`.
use raft_recovery.Prelude.{
  is_some, ℕ, ◌≡◌, refl, Bool, true, false, Option, none, some, List, [], ◌∷◌, String, arith,
  eq_iff, str_eq, lookup, contains, lookup-insert, contains-add_key, contains-push, ◌&&◌,
  if◌then◌else◌, ◌||◌, ltb,
}
use raft_recovery.Types.{Job, SnapshotData, is_pending, is_in_flight, is_completed, is_dead}
use raft_recovery.JobManager.{
  JobManager, restore_job, restore_all, restore, snapshot, active_jobs, get_expired_jobs,
  expired_among, is_expired,
}
use raft_recovery.JobManager.Indexes.{has, IsIndexed}

-- A map has each key once.
abbrev pub IsMap : List (String × Job) → Type 0
IsMap [] = Unit {0}
IsMap ((k, job) ∷ m) = (lookup k m ≡ none) × IsMap m

-- The indexes hold exactly the jobs of their status, and the queue exactly the pending ones.
pub record IsExact (jm : JobManager) (k : String) : Type 0 where
  pub in_flight_exact : contains k jm.in_flight ≡ has is_in_flight (lookup k jm.jobs)
  pub completed_exact : contains k jm.completed ≡ has is_completed (lookup k jm.jobs)
  pub dead_exact : contains k jm.dead ≡ has is_dead (lookup k jm.jobs)
  pub queue_exact : contains k jm.queue ≡ has is_pending (lookup k jm.jobs)

restore_job-IsExact :
    (jm : JobManager) (k id : String) (job : Job)
    → lookup id jm.jobs ≡ none
    → IsExact jm k
    → IsExact (restore_job jm id job) k
unfolding restore_job
restore_job-IsExact jm k id job fresh v = ground (
  arith,
  eq_iff id k,
  lookup-insert id k job jm.jobs,
  contains-add_key id k jm.in_flight,
  contains-add_key id k jm.completed,
  contains-add_key id k jm.dead,
  contains-push id k jm.queue,
)

lookup-restore_job :
    (jm : JobManager) (k id : String) (job : Job)
    → lookup k (restore_job jm id job).jobs ≡ (if str_eq id k then some job else lookup k jm.jobs)
unfolding restore_job
lookup-restore_job jm k id job = ground (arith, lookup-insert id k job jm.jobs)

-- What restoring the jobs of a map does to one identifier, on a manager that knows none of them.
restore_all_lem :
    (jm : JobManager) (m : List (String × Job)) (k : String)
    → IsMap m
    → ((j : String) → is_some (lookup j m) ≡ true → lookup j jm.jobs ≡ none)
    → IsExact jm k
    → IsExact (restore_all jm m) k
      × (lookup k (restore_all jm m).jobs
          ≡ (if is_some (lookup k m) then lookup k m else lookup k jm.jobs))
unfolding restore_all lookup
restore_all_lem jm [] k d fresh v = (v, refl)
restore_all_lem jm ((id, job) ∷ m) k d fresh v =
    let ih =
      restore_all_lem (restore_job jm id job) m k d.1
        (λ j h. ground (arith, eq_iff id j, lookup-restore_job jm j id job, fresh j))
        (restore_job-IsExact jm k id job (ground (arith, eq_iff id id, fresh id)) v) in
    (ih.0, ground (arith, ih.1, eq_iff id k, lookup-restore_job jm k id job))

-- `Restore` of a snapshot that has each key once, over any earlier state, stores exactly the jobs of
-- the snapshot, and each index holds exactly the identifiers whose status is its own, the queue those
-- of the pending jobs.
pub restore-IsExact :
    (jm : JobManager) (data' : SnapshotData) (k : String)
    → IsMap data'.jobs
    → IsExact (restore jm data') k × (lookup k (restore jm data').jobs ≡ lookup k data'.jobs)
unfolding restore lookup contains
restore-IsExact jm data' k d =
    let r =
      restore_all_lem
        (record jm { jobs = []; queue = []; in_flight = []; completed = []; dead = [] }) data'.jobs
        k d (λ j h. refl)
        (record {
          in_flight_exact = refl;
          completed_exact = refl;
          dead_exact = refl;
          queue_exact = refl;
        }) in
    (r.0, ground (arith, r.1))

-- For a manager with each key once, whose indexes agree with the statuses for an identifier: its
-- snapshot, restored over any state, brings back the job and its places in the in-flight and dead
-- indexes, and the queue has it exactly if it is pending, even if it had been popped.
pub restore-snapshot :
    (jm jm' : JobManager) (k : String)
    → IsMap jm.jobs
    → IsIndexed jm k
    → (lookup k (restore jm' (snapshot jm)).jobs ≡ lookup k jm.jobs)
      × (contains k (restore jm' (snapshot jm)).in_flight ≡ contains k jm.in_flight)
      × (contains k (restore jm' (snapshot jm)).dead ≡ contains k jm.dead)
      × (contains k (restore jm' (snapshot jm)).queue ≡ has is_pending (lookup k jm.jobs))
unfolding snapshot
restore-snapshot jm jm' k d v =
    let r = restore-IsExact jm' (snapshot jm) k d in ground (arith, r.1, r.0)

-- Of jobs that have each key once, the partial snapshot holds exactly those that are pending or in
-- flight, unchanged.
pub lookup-active_jobs :
    (m : List (String × Job)) (k : String)
    → IsMap m
    → lookup k (active_jobs m)
      ≡ (if has is_pending (lookup k m) || has is_in_flight (lookup k m) then lookup k m else none)
unfolding active_jobs lookup
lookup-active_jobs [] k d = refl
lookup-active_jobs ((id, job) ∷ m) k d = ground (arith, eq_iff id k, lookup-active_jobs m k d.1)

contains-expired_among :
    (jm : JobManager) (now : ℕ) (ids : List String) (k : String)
    → contains k (expired_among jm now ids) ≡ (contains k ids && is_expired now (lookup k jm.jobs))
unfolding expired_among contains
contains-expired_among jm now [] k = refl
contains-expired_among jm now (id ∷ ids) k =
    ground (arith, eq_iff id k, contains-expired_among jm now ids k)

abbrev has_deadline_before : ℕ → Option Job → Bool
has_deadline_before now none = false
has_deadline_before now (some job) = elim job.deadline [ none ↦ false | some d ↦ ltb d now ]

-- Where the indexes agree with the statuses, `GetExpiredJobs` reports an identifier exactly if its job
-- is in flight with a deadline that has passed.
pub contains-get_expired_jobs :
    (jm : JobManager) (now : ℕ) (k : String)
    → IsIndexed jm k
    → contains k (get_expired_jobs jm now)
      ≡ (has is_in_flight (lookup k jm.jobs) && has_deadline_before now (lookup k jm.jobs))
unfolding get_expired_jobs is_expired
contains-get_expired_jobs jm now k v =
    ground (arith, contains-expired_among jm now jm.in_flight k, v.in_flight_exact)
