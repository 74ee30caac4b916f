-- ===== src/Controller/Recover/Replay.antt =====
-- internal/controller/controller.go: what recovery and the commands from Raft do.
use raft_recovery.Prelude.{
  ℕ, ◌≡◌, refl, ap, sym, subst, true, false, Bool, Option, none, some, List, [], ◌∷◌, String, arith,
  eq_iff, str_eq, lookup, lookup-insert, contains, contains-add_key, is_some, ◌||◌, ◌&&◌, not,
  Option-cases, inl, inr, ◌⊎◌,
}
use raft_recovery.Types.{Job, JobStatus, SnapshotData, pending, completed, is_in_flight}
use raft_recovery.JobManager
use raft_recovery.JobManager.{
  JobManager, JobError, job_not_found, enqueue, mark_in_flight, mark_completed, mark_dead, requeue,
  restore, get_job, get_all_in_flight_jobs,
}
use raft_recovery.JobManager.Indexes.{has, IsIndexed, requeue-IsIndexed}
use raft_recovery.JobManager.Recovery.{IsMap, restore-IsExact}
use raft_recovery.Wal.Event.{Event, dispatch, verify_checksum}
use raft_recovery.Wal.Writer.{WalLine, written, replay, handler_failed}
use raft_recovery.Snapshot.Manager.{Disk, loaded, load}
use raft_recovery.Controller.Recover.{
  replay_handler, requeue_all, recover, replay_failed, enqueue_command, ack_command,
  handle_raft_command, apply_enqueues,
}

-- When the snapshot loads and has each key once, and the log goes on with the valid record of the
-- dispatch of a job that the snapshot lacks, recovery fails with an unknown job.
pub recover_dispatched_fails :
    (crc32 : List ℕ → ℕ) (now task_timeout : ℕ) (jm : JobManager) (disk : Disk)
    (data' : SnapshotData) (e : Event) (lines : List WalLine)
    → load true disk ≡ loaded data'
    → IsMap data'.jobs
    → lookup e.job_id data'.jobs ≡ none
    → e.type ≡ dispatch
    → verify_checksum crc32 e ≡ true
    → recover crc32 now task_timeout jm true disk (written e ∷ lines)
      ≡ (restore jm data', some (replay_failed (handler_failed job_not_found)))
unfolding recover replay replay_handler mark_in_flight JobManager.is_completed JobManager.is_dead
recover_dispatched_fails crc32 now task_timeout jm disk data' e lines l m fresh d v =
    let r = restore-IsExact jm data' e.job_id m in ground (arith, l, d, v, r.1, r.0)

requeue_all-IsIndexed :
    (jm : JobManager) (now : ℕ) (k : String) (ids : List String)
    → IsIndexed jm k
    → IsIndexed (requeue_all jm now ids) k
unfolding requeue_all
requeue_all-IsIndexed jm now k [] v = v
requeue_all-IsIndexed jm now k (id ∷ ids) v =
    requeue_all-IsIndexed ((requeue jm now id).0) now k ids (requeue-IsIndexed jm k v now id)

requeue_lands :
    (jm : JobManager) (now : ℕ) (id k : String)
    → has is_in_flight (lookup k (requeue jm now id).0.jobs)
      ≡ (has is_in_flight (lookup k jm.jobs) && not (str_eq id k))
unfolding requeue
requeue_lands jm now id k = grind (arith, eq_iff id k, lookup-insert)

pub requeue_all_lands :
    (jm : JobManager) (now : ℕ) (ids : List String) (k : String)
    → has is_in_flight (lookup k (requeue_all jm now ids).jobs)
      ≡ (has is_in_flight (lookup k jm.jobs) && not (contains k ids))
unfolding requeue_all contains
requeue_all_lands jm now [] k = ground arith
requeue_all_lands jm now (id ∷ ids) k =
    ground (arith, requeue_lands jm now id k, requeue_all_lands ((requeue jm now id).0) now ids k)

-- The last step of recovery leaves no job in flight, where the indexes agree with the statuses.
pub requeue_all_in_flight :
    (jm : JobManager) (now : ℕ) (k : String)
    → IsIndexed jm k
    → has is_in_flight (lookup k (requeue_all jm now (get_all_in_flight_jobs jm)).jobs) ≡ false
unfolding get_all_in_flight_jobs
requeue_all_in_flight jm now k v =
    ground (arith, requeue_all_lands jm now jm.in_flight k, v.in_flight_exact)

enqueue-known :
    (jm : JobManager) (now : ℕ) (job : Job) (k : String)
    → is_some (lookup k jm.jobs) ≡ true
    → is_some (lookup k (enqueue jm now job).0.jobs) ≡ true
unfolding enqueue
enqueue-known jm now job k h = grind (arith, eq_iff job.id k, lookup-insert)

enqueue_self :
    (jm : JobManager) (now : ℕ) (job : Job)
    → is_some (lookup job.id (enqueue jm now job).0.jobs) ≡ true
unfolding enqueue
enqueue_self jm now job = grind (arith, eq_iff job.id job.id, lookup-insert)

apply_enqueues-known :
    (jm : JobManager) (now : ℕ) (jobs : List Job) (k : String)
    → is_some (lookup k jm.jobs) ≡ true
    → is_some (lookup k (apply_enqueues jm now jobs).jobs) ≡ true
unfolding apply_enqueues get_job
apply_enqueues-known jm now [] k h = h
apply_enqueues-known jm now (job ∷ jobs) k h = ground (
  arith,
  apply_enqueues-known jm now jobs k h,
  apply_enqueues-known ((enqueue jm now job).0) now jobs k (enqueue-known jm now job k h),
)

abbrev AllKnown : JobManager → List Job → Type 0
AllKnown jm [] = Unit {0}
AllKnown jm (job ∷ jobs) = (is_some (lookup job.id jm.jobs) ≡ true) × AllKnown jm jobs

apply_enqueues_same :
    (jm : JobManager) (now : ℕ) (jobs : List Job)
    → AllKnown jm jobs
    → apply_enqueues jm now jobs ≡ jm
unfolding apply_enqueues get_job
apply_enqueues_same jm now [] a = refl
apply_enqueues_same jm now (job ∷ jobs) a = ground (arith, apply_enqueues_same jm now jobs a.1)

apply_enqueues_old :
    (jm : JobManager) (now : ℕ) (job : Job) (jobs : List Job) {old : Job}
    → lookup job.id jm.jobs ≡ some old
    → apply_enqueues jm now (job ∷ jobs) ≡ apply_enqueues jm now jobs
unfolding apply_enqueues get_job
apply_enqueues_old jm now job jobs h = ground arith

apply_enqueues_new :
    (jm : JobManager) (now : ℕ) (job : Job) (jobs : List Job)
    → lookup job.id jm.jobs ≡ none
    → apply_enqueues jm now (job ∷ jobs) ≡ apply_enqueues ((enqueue jm now job).0) now jobs
unfolding apply_enqueues get_job
apply_enqueues_new jm now job jobs h = ground arith

apply_enqueues-AllKnown :
    (jm : JobManager) (now : ℕ) (jobs : List Job) → AllKnown (apply_enqueues jm now jobs) jobs
apply_enqueues-AllKnown jm now [] = tt
apply_enqueues-AllKnown jm now (job ∷ jobs) = elim (Option-cases (lookup job.id jm.jobs)) [
  | inr (old, known) ↦
      subst (λ m. AllKnown m (job ∷ jobs)) (sym (apply_enqueues_old jm now job jobs known))
        (
          apply_enqueues-known jm now jobs job.id (ap is_some known),
          apply_enqueues-AllKnown jm now jobs,
        )
  | inl new ↦
      subst (λ m. AllKnown m (job ∷ jobs)) (sym (apply_enqueues_new jm now job jobs new))
        (
          apply_enqueues-known ((enqueue jm now job).0) now jobs job.id (enqueue_self jm now job),
          apply_enqueues-AllKnown ((enqueue jm now job).0) now jobs,
        )
]

-- Applying a committed enqueue command a second time, at any time, changes nothing.
pub enqueue_command_idempotent :
    (jm : JobManager) (now later : ℕ) (jobs : List Job)
    → handle_raft_command
        (handle_raft_command jm now (enqueue_command jobs))
        later
        (enqueue_command jobs)
      ≡ handle_raft_command jm now (enqueue_command jobs)
unfolding handle_raft_command
enqueue_command_idempotent jm now later jobs =
    apply_enqueues_same (apply_enqueues jm now jobs) later jobs
      (apply_enqueues-AllKnown jm now jobs)

-- A job, if there is one, is stored under its own identifier.
abbrev pub IsOwn : String → Option Job → Type 0
IsOwn id none = Unit {0}
IsOwn id (some job) = job.id ≡ id

abbrev settled : JobManager → String → Bool
settled jm id = JobManager.is_completed jm id || JobManager.is_dead jm id

ack_settled :
    (jm : JobManager) (now : ℕ) (id : String) (status : JobStatus)
    → settled jm id ≡ true
    → handle_raft_command jm now (ack_command id status) ≡ jm
unfolding handle_raft_command
ack_settled jm now id status h = ground arith

ack_settles :
    (jm : JobManager) (now later : ℕ) (id : String) (status : JobStatus)
    → IsOwn id (lookup id jm.jobs)
    → (settled (handle_raft_command jm now (ack_command id status)) id ≡ true)
      ⊎ ((handle_raft_command jm now (ack_command id status) ≡ jm)
          × (handle_raft_command jm later (ack_command id status) ≡ jm))
unfolding handle_raft_command JobManager.is_completed JobManager.is_dead get_job mark_completed
    mark_dead
ack_settles jm now later id status own = grind (arith, eq_iff id id, contains-add_key)

-- For a job that is stored under its own identifier, or not at all, applying an acknowledgement a
-- second time, at any time, changes nothing.
pub ack_command_idempotent :
    (jm : JobManager) (now later : ℕ) (id : String) (status : JobStatus)
    → IsOwn id (lookup id jm.jobs)
    → handle_raft_command
        (handle_raft_command jm now (ack_command id status))
        later
        (ack_command id status)
      ≡ handle_raft_command jm now (ack_command id status)
ack_command_idempotent jm now later id status own = elim (ack_settles jm now later id status own) [
  | inl done ↦ ack_settled (handle_raft_command jm now (ack_command id status)) later id status done
  | inr (same, again) ↦
      subst (λ m. handle_raft_command m later (ack_command id status) ≡ m) (sym same) again
]

-- The command that acknowledges success of a job that is pending, and stored under its own identifier,
-- changes nothing.
pub ack_pending_ignored :
    (jm : JobManager) (now : ℕ) (id : String) (job : Job)
    → lookup id jm.jobs ≡ some job
    → job.id ≡ id
    → job.status ≡ pending
    → handle_raft_command jm now (ack_command id completed) ≡ jm
unfolding handle_raft_command mark_completed get_job
ack_pending_ignored jm now id job h s p = ground arith
