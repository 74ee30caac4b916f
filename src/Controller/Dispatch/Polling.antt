-- ===== src/Controller/Dispatch/Polling.antt =====
-- internal/controller: `Poll` against a round of `dispatchLoop`.
use raft_recovery.Prelude.{
  ℕ, ◌≡◌, refl, sym, ap, ◌∙◌, false, List, [], ◌∷◌, if◌then◌else◌, ◌+◌, String, arith,
}
use raft_recovery.Types.{Job}
use raft_recovery.JobManager.{JobManager, mark_in_flight}
use raft_recovery.Wal.Event
use raft_recovery.Controller.Core.{Controller, Logs, append, with_manager}
use raft_recovery.Controller.Dispatch.{
  pop_batch, log_dispatches, mark_all, dispatch_round, poll_all, Polled, poll, pool_closed, polled,
  Clock,
}
use raft_recovery.Controller.Dispatch.Timeless.{timeless, timeless-mark_all}
use raft_recovery.Controller.Dispatch.Order.{log_dispatches-job_manager}

append-with_manager :
    (c : Controller) (jm : JobManager) (logs : Logs) (id : String)
    → append (with_manager c jm) logs Event.dispatch id
      ≡ with_manager (append c logs Event.dispatch id) jm
unfolding append
append-with_manager c jm logs id = ground arith

log_dispatches-with_manager :
    (c : Controller) (jm : JobManager) (logs : Logs) (jobs : List Job)
    → log_dispatches (with_manager c jm) logs jobs ≡ with_manager (log_dispatches c logs jobs) jm
unfolding log_dispatches
log_dispatches-with_manager c jm logs [] = refl
log_dispatches-with_manager c jm logs (job ∷ jobs) =
    ap (λ x. log_dispatches x logs jobs) (append-with_manager c jm logs job.id)
    ∙ log_dispatches-with_manager (append c logs Event.dispatch job.id) jm logs jobs

-- Logging and marking job by job comes to the same as logging all and then marking all.
poll_all-mark_all :
    (c : Controller) (logs : Logs) (clock : Clock) (deadline : ℕ) (jobs : List Job)
    → poll_all c logs clock deadline jobs
      ≡ with_manager (log_dispatches c logs jobs) (mark_all c.job_manager clock deadline jobs)
unfolding poll_all log_dispatches mark_all
poll_all-mark_all c logs clock deadline [] = refl
poll_all-mark_all c logs clock deadline (job ∷ jobs) =
    let c' = append c logs Event.dispatch job.id in
    let jm' = (mark_in_flight c.job_manager (clock job.id) job.id deadline).0 in
    let same : c'.job_manager ≡ c.job_manager = log_dispatches-job_manager c logs (job ∷ []) in
    ap
      (λ jm.
        poll_all (with_manager c' ((mark_in_flight jm (clock job.id) job.id deadline).0)) logs clock
          deadline jobs)
      same
    ∙ poll_all-mark_all (with_manager c' jm') logs clock deadline jobs
    ∙ ap (λ x. with_manager x (mark_all jm' clock deadline jobs))
        (log_dispatches-with_manager c' jm' logs jobs)

-- On a controller that is not stopped, `Poll` for ten jobs and a round of the dispatch loop that no other
-- thread interrupts, at whatever times: they leave the same log, and the same jobs, queue and indexes but
-- for the deadlines and the times of the last change.
pub poll-dispatch_round :
    (c : Controller) (logs : Logs) (clock clock' : Clock) (start start' : ℕ)
    → c.stopped ≡ false
    → let polled' = (poll c logs clock start 10).0 in
      let looped = (dispatch_round c logs clock' start').0 in
      (polled'.wal ≡ looped.wal) × (timeless polled'.job_manager ≡ timeless looped.job_manager)
unfolding poll dispatch_round
poll-dispatch_round c logs clock clock' start start' running =
    let (popped, jobs) = pop_batch c.job_manager 10 in
    let c' = with_manager c popped in
    let deadline = start + c.config.task_timeout in
    let deadline' = start' + c.config.task_timeout in
    let as_marked =
      ap
        (λ b.
          (if◌then◌else◌ {A = Controller × Polled} b (c, pool_closed)
            (poll_all c' logs clock deadline jobs, polled jobs)).0)
        running
      ∙ poll_all-mark_all c' logs clock deadline jobs in
    (
      ap (λ (x : Controller). x.wal) as_marked,
      ap (λ (x : Controller). timeless x.job_manager) as_marked
          ∙ timeless-mark_all popped clock clock' deadline deadline' jobs
          ∙ ap (λ jm. timeless (mark_all jm clock' deadline' jobs))
              (sym (log_dispatches-job_manager c' logs jobs)),
    )

pub poll_all-job_manager :
    (c : Controller) (logs : Logs) (clock : Clock) (deadline : ℕ) (jobs : List Job)
    → (poll_all c logs clock deadline jobs).job_manager ≡ mark_all c.job_manager clock deadline jobs
poll_all-job_manager c logs clock deadline jobs =
    ap (λ (x : Controller). x.job_manager) (poll_all-mark_all c logs clock deadline jobs)
