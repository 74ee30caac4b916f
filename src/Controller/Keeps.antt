-- ===== src/Controller/Keeps.antt =====
-- internal/controller: what each operation of the job manager keeps, the calls of clients, workers, timers
-- and Raft keep.
use raft_recovery.Prelude.{
  ℕ, ◌+◌, ◌≡◌, refl, sym, subst, none, some, Option, List, [], ◌∷◌, String, arith, lookup, leb,
  Option-cases, Bool-cases, inl, inr, ◌||◌,
}
use raft_recovery.Types.{Job, JobStatus, is_completed}
use raft_recovery.JobManager
use raft_recovery.JobManager.{
  JobManager, enqueue, mark_completed, requeue, mark_dead, get_job, get_expired_jobs, is_dead,
  set_last_applied_index,
}
use raft_recovery.Wal.Event.{EventType}
use raft_recovery.Wal.Event
use raft_recovery.Controller.Core.{
  Controller, Logs, WorkResult, append, log_enqueues, enqueue_all, enqueue_jobs, bump_attempt,
  handle_success, handle_failure, handle_result, time_out, time_out_all, timeout_tick,
}
use raft_recovery.Controller.Dispatch.{acknowledge}
use raft_recovery.Controller.Recover.{
  RaftCommand, enqueue_command, ack_command, unknown_command, undecodable, apply_enqueues,
  handle_raft_command, apply_message,
}

pub record Keeps (V : JobManager → Type 0) : Type 0 where
  pub enqueues : (jm : JobManager) (now : ℕ) (job : Job) → V jm → V (enqueue jm now job).0
  pub completes : (jm : JobManager) (now : ℕ) (id : String) → V jm → V (mark_completed jm now id).0
  pub requeues : (jm : JobManager) (now : ℕ) (id : String) → V jm → V (requeue jm now id).0
  pub kills : (jm : JobManager) (now : ℕ) (id : String) → V jm → V (mark_dead jm now id).0
  pub bumps :
      (jm : JobManager) (id : String) (job : Job)
      → lookup id jm.jobs ≡ some job
      → V jm
      → V (bump_attempt jm id job)
  pub applies : (jm : JobManager) (index : ℕ) → V jm → V (set_last_applied_index jm index)

pub append-job_manager :
    (c : Controller) (logs : Logs) (type : EventType) (id : String)
    → (append c logs type id).job_manager ≡ c.job_manager
unfolding append
append-job_manager c logs type id = ground arith

log_enqueues-job_manager :
    (c : Controller) (logs : Logs) (jobs : List Job)
    → (log_enqueues c logs jobs).0.job_manager ≡ c.job_manager
unfolding log_enqueues
log_enqueues-job_manager c logs [] = refl
log_enqueues-job_manager c logs (job ∷ jobs) = ground (
  arith,
  log_enqueues-job_manager (append c logs Event.enqueue job.id) logs jobs,
  append-job_manager c logs Event.enqueue job.id,
)

module _ (V : JobManager → Type 0) (keep : Keeps V) (logs : Logs) (now : ℕ) where
  enqueue_all-V : (jm : JobManager) (jobs : List Job) → V jm → V (enqueue_all jm now jobs).0
  unfolding enqueue_all
  enqueue_all-V jm [] v = v
  enqueue_all-V jm (job ∷ jobs) v =
      let v' = keep.enqueues jm now job v in
      elim (Option-cases (enqueue jm now job).1) [
        | inl ok ↦ rw (ok, enqueue_all) (enqueue_all-V ((enqueue jm now job).0) jobs v')
        | inr (e, refused) ↦ rw (refused, enqueue_all) v'
      ]

  pub enqueue_jobs-keeps :
      (c : Controller) (jobs : List Job)
      → V c.job_manager
      → V (enqueue_jobs c logs now jobs).0.job_manager
  unfolding enqueue_jobs
  enqueue_jobs-keeps c jobs v =
      let v' : V (log_enqueues c logs jobs).0.job_manager =
        subst V (sym (log_enqueues-job_manager c logs jobs)) v in
      elim (Option-cases (log_enqueues c logs jobs).1) [
        | inl ok ↦
            rw (ok, enqueue_jobs) (enqueue_all-V ((log_enqueues c logs jobs).0.job_manager) jobs v')
        | inr (e, failed) ↦ rw (failed, enqueue_jobs) v'
      ]

  handle_success-V :
      (c : Controller) (id : String) (job : Job)
      → V c.job_manager
      → V (handle_success c logs now id job).job_manager
  unfolding handle_success
  handle_success-V c id job v = elim (Bool-cases (logs job.id)) [
    | inl logged ↦ rw logged (keep.completes c.job_manager now id v)
    | inr failed ↦ rw failed v
  ]

  handle_failure-V :
      (c : Controller) (id : String) (job : Job)
      → lookup id c.job_manager.jobs ≡ some job
      → V c.job_manager
      → V (handle_failure c logs now id job).job_manager
  unfolding handle_failure
  handle_failure-V c id job h v =
      let b = keep.bumps c.job_manager id job h v in
      elim (Bool-cases (logs job.id)) [
        | inr failed ↦ elim (Bool-cases (leb c.config.max_retry (job.attempt + 1))) [
          | inl last ↦ rw (last, failed) b
          | inr more ↦ rw (more, failed) b
        ]
        | inl logged ↦ elim (Bool-cases (leb c.config.max_retry (job.attempt + 1))) [
          | inl last ↦ rw (last, logged) (keep.kills (bump_attempt c.job_manager id job) now id b)
          | inr more ↦
              rw (more, logged) (keep.requeues (bump_attempt c.job_manager id job) now id b)
        ]
      ]

  pub handle_result-keeps :
      (c : Controller) (result : WorkResult)
      → V c.job_manager
      → V (handle_result c logs now result).job_manager
  unfolding handle_result get_job
  handle_result-keeps c result v = elim (Option-cases (lookup result.job_id c.job_manager.jobs)) [
    | inl unknown ↦ rw (unknown, handle_result) v
    | inr (job, known) ↦ elim (Bool-cases result.success) [
      | inl good ↦ rw (known, handle_result, good) (handle_success-V c result.job_id job v)
      | inr bad ↦ rw (known, handle_result, bad) (handle_failure-V c result.job_id job known v)
    ]
  ]

  pub acknowledge-keeps :
      (c : Controller) (result : Option WorkResult)
      → V c.job_manager
      → V (acknowledge c logs now result).0.job_manager
  unfolding acknowledge
  acknowledge-keeps c none v = v
  acknowledge-keeps c (some result) v = handle_result-keeps c result v

  time_out-V :
      (c : Controller) (id : String) → V c.job_manager → V (time_out c logs now id).job_manager
  unfolding time_out get_job
  time_out-V c id v = elim (Option-cases (lookup id c.job_manager.jobs)) [
    | inl unknown ↦ rw (unknown, time_out) v
    | inr (job, known) ↦
        let b = keep.bumps c.job_manager id job known v in
        elim (Bool-cases (logs job.id)) [
          | inr failed ↦ rw (known, time_out, failed) v
          | inl logged ↦ elim (Bool-cases (leb c.config.max_retry (job.attempt + 1))) [
            | inl last ↦
                rw (known, time_out, logged, last)
                  (keep.kills (bump_attempt c.job_manager id job) now id b)
            | inr more ↦
                rw (known, time_out, logged, more)
                  (keep.requeues (bump_attempt c.job_manager id job) now id b)
          ]
        ]
  ]

  time_out_all-V :
      (c : Controller) (ids : List String)
      → V c.job_manager
      → V (time_out_all c logs now ids).job_manager
  unfolding time_out_all
  time_out_all-V c [] v = v
  time_out_all-V c (id ∷ ids) v = time_out_all-V (time_out c logs now id) ids (time_out-V c id v)

  pub timeout_tick-keeps :
      (c : Controller) → V c.job_manager → V (timeout_tick c logs now).job_manager
  unfolding timeout_tick
  timeout_tick-keeps c v = time_out_all-V c (get_expired_jobs c.job_manager now) v

  apply_enqueues-V : (jm : JobManager) (jobs : List Job) → V jm → V (apply_enqueues jm now jobs)
  unfolding apply_enqueues
  apply_enqueues-V jm [] v = v
  apply_enqueues-V jm (job ∷ jobs) v = elim (Option-cases (get_job jm job.id)) [
    | inl new ↦
        rw (new, apply_enqueues)
          (apply_enqueues-V ((enqueue jm now job).0) jobs (keep.enqueues jm now job v))
    | inr (old, known) ↦ rw (known, apply_enqueues) (apply_enqueues-V jm jobs v)
  ]

  ack_command-V :
      (jm : JobManager) (id : String) (status : JobStatus)
      → V jm
      → V (handle_raft_command jm now (ack_command id status))
  unfolding handle_raft_command
  ack_command-V jm id status v =
      elim (Bool-cases (JobManager.is_completed jm id || is_dead jm id)) [
        | inl settled ↦ rw (settled, handle_raft_command) v
        | inr running ↦ elim (Option-cases (get_job jm id)) [
          | inl unknown ↦ rw (running, unknown, handle_raft_command) v
          | inr (job, known) ↦ elim (Bool-cases (is_completed status)) [
            | inl done ↦
                rw (running, known, done, handle_raft_command) (keep.completes jm now job.id v)
            | inr failed ↦
                rw (running, known, failed, handle_raft_command) (keep.kills jm now job.id v)
          ]
        ]
      ]

  pub apply_message-keeps :
      (jm : JobManager) (command : RaftCommand) (index : ℕ)
      → V jm
      → V (apply_message jm now command index)
  unfolding apply_message handle_raft_command
  apply_message-keeps jm (enqueue_command jobs) index v =
      keep.applies (apply_enqueues jm now jobs) index (apply_enqueues-V jm jobs v)
  apply_message-keeps jm (ack_command id status) index v =
      keep.applies (handle_raft_command jm now (ack_command id status)) index
        (ack_command-V jm id status v)
  apply_message-keeps jm unknown_command index v = keep.applies jm index v
  apply_message-keeps jm undecodable index v = keep.applies jm index v
