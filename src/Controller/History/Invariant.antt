-- ===== src/Controller/History/Invariant.antt =====
-- internal/controller: the indexes of the job manager over the history of a controller.
use raft_recovery.Prelude.{
  ℕ, zero, suc, ◌+◌, sym, subst, true, false, Bool, List, [], ◌∷◌, String, Option-cases, inl, inr,
  if◌then◌else◌,
}
use raft_recovery.Types.{Job}
use raft_recovery.JobManager.{JobManager, pop_pending, mark_in_flight}
use raft_recovery.JobManager.Indexes.{
  Op, IsIndexed, step-IsIndexed, run_new-IsIndexed, enqueues, pops, dispatches, completes, kills,
  applies,
}
use raft_recovery.JobManager.Indexes as Indexes
use raft_recovery.Wal.Event.{EventType}
use raft_recovery.Wal.Event
use raft_recovery.Controller.Core.{Config, Controller, Logs, new_controller, append, with_manager}
use raft_recovery.Controller.Core.Results.{bump_attempt-IsIndexed}
use raft_recovery.Controller.Keeps.{
  Keeps, enqueue_jobs-keeps, handle_result-keeps, acknowledge-keeps, timeout_tick-keeps,
  apply_message-keeps, append-job_manager,
}
use raft_recovery.Controller.Dispatch.{
  Clock, pop_batch, log_dispatches, mark_all, dispatch_round, poll_all, Polled, poll,
}
use raft_recovery.Controller.Dispatch.Order.{log_dispatches-job_manager}
use raft_recovery.Controller.History.{
  Call, Turn, submits, hands_out, polls, reports, acknowledges, ticks, commits, step, run,
}

module _ (k : String) (now : ℕ) where
  pop_batch-IsIndexed :
      (jm : JobManager) (count : ℕ) → IsIndexed jm k → IsIndexed (pop_batch jm count).0 k
  unfolding pop_batch Indexes.step
  pop_batch-IsIndexed jm zero v = v
  pop_batch-IsIndexed jm (suc count) v =
      let v' = step-IsIndexed jm k pops v in
      elim (Option-cases (pop_pending jm).1) [
        | inl empty ↦ rw (empty, pop_batch) v'
        | inr (job, popped) ↦
            rw (popped, pop_batch) (pop_batch-IsIndexed ((pop_pending jm).0) count v')
      ]

  mark_all-IsIndexed :
      (jm : JobManager) (clock : Clock) (deadline : ℕ) (jobs : List Job)
      → IsIndexed jm k
      → IsIndexed (mark_all jm clock deadline jobs) k
  unfolding mark_all Indexes.step
  mark_all-IsIndexed jm clock deadline [] v = v
  mark_all-IsIndexed jm clock deadline (job ∷ jobs) v =
      mark_all-IsIndexed ((mark_in_flight jm (clock job.id) job.id deadline).0) clock deadline jobs
        (step-IsIndexed jm k (dispatches (clock job.id) job.id deadline) v)

module _ (c : Controller) (logs : Logs) (clock : Clock) (start : ℕ) (k : String)
    (v : IsIndexed c.job_manager k) where
  dispatch_round-IsIndexed : IsIndexed (dispatch_round c logs clock start).0.job_manager k
  unfolding dispatch_round
  dispatch_round-IsIndexed =
      let popped = pop_batch c.job_manager 10 in
      let logged = log_dispatches (with_manager c popped.0) logs popped.1 in
      mark_all-IsIndexed k start logged.job_manager clock (start + c.config.task_timeout) popped.1 (
        subst (λ jm. IsIndexed jm k)
          (sym (log_dispatches-job_manager (with_manager c popped.0) logs popped.1))
          (pop_batch-IsIndexed k start c.job_manager 10 v))

IsIndexed-Keeps : (k : String) → Keeps (λ jm. IsIndexed jm k)
unfolding Indexes.step
IsIndexed-Keeps k = record {
  enqueues = λ jm now job v. step-IsIndexed jm k (enqueues now job) v;
  completes = λ jm now id v. step-IsIndexed jm k (completes now id) v;
  requeues = λ jm now id v. step-IsIndexed jm k (Indexes.requeues now id) v;
  kills = λ jm now id v. step-IsIndexed jm k (kills now id) v;
  bumps = λ jm id job h v. bump_attempt-IsIndexed jm k id job h v;
  applies = λ jm index v. step-IsIndexed jm k (applies index) v;
}

poll_all-IsIndexed :
    (c : Controller) (logs : Logs) (clock : Clock) (deadline : ℕ) (k : String) (jobs : List Job)
    → IsIndexed c.job_manager k
    → IsIndexed (poll_all c logs clock deadline jobs).job_manager k
unfolding poll_all Indexes.step
poll_all-IsIndexed c logs clock deadline k [] v = v
poll_all-IsIndexed c logs clock deadline k (job ∷ jobs) v =
    let c' = append c logs Event.dispatch job.id in
    let v' : IsIndexed c'.job_manager k =
      subst (λ jm. IsIndexed jm k) (sym (append-job_manager c logs Event.dispatch job.id)) v in
    poll_all-IsIndexed
      (with_manager c' ((mark_in_flight c'.job_manager (clock job.id) job.id deadline).0)) logs
      clock deadline k jobs
      (step-IsIndexed c'.job_manager k (dispatches (clock job.id) job.id deadline) v')

if_both : {A : Type 0} (P : A → Type 0) (b : Bool) (x y : A) → P x → P y → P (if b then x else y)
if_both P true x y p q = p
if_both P false x y p q = q

poll-IsIndexed :
    (c : Controller) (logs : Logs) (clock : Clock) (start max_jobs : ℕ) (k : String)
    → IsIndexed c.job_manager k
    → IsIndexed (poll c logs clock start max_jobs).0.job_manager k
unfolding poll
poll-IsIndexed c logs clock start max_jobs k v =
    let popped = pop_batch c.job_manager max_jobs in
    if_both (λ (r : Controller × Polled). IsIndexed (r.0.job_manager) k) c.stopped _ _ v
      (poll_all-IsIndexed (with_manager c popped.0) logs clock (start + c.config.task_timeout) k
        popped.1 (pop_batch-IsIndexed k start c.job_manager max_jobs v))

step_call-IsIndexed :
    (c : Controller) (logs : Logs) (now : ℕ) (k : String) (call : Call)
    → IsIndexed c.job_manager k
    → IsIndexed (step c logs now call).job_manager k
unfolding step
step_call-IsIndexed c logs now k (submits jobs) v =
    enqueue_jobs-keeps (λ jm. IsIndexed jm k) (IsIndexed-Keeps k) logs now c jobs v
step_call-IsIndexed c logs now k (hands_out clock start) v =
    dispatch_round-IsIndexed c logs clock start k v
step_call-IsIndexed c logs now k (polls clock start max_jobs) v =
    poll-IsIndexed c logs clock start max_jobs k v
step_call-IsIndexed c logs now k (reports result) v =
    handle_result-keeps (λ jm. IsIndexed jm k) (IsIndexed-Keeps k) logs now c result v
step_call-IsIndexed c logs now k (acknowledges result) v =
    acknowledge-keeps (λ jm. IsIndexed jm k) (IsIndexed-Keeps k) logs now c result v
step_call-IsIndexed c logs now k ticks v =
    timeout_tick-keeps (λ jm. IsIndexed jm k) (IsIndexed-Keeps k) logs now c v
step_call-IsIndexed c logs now k (commits command index) v =
    apply_message-keeps (λ jm. IsIndexed jm k) (IsIndexed-Keeps k) logs now c.job_manager command
      index v

run_calls-IsIndexed :
    (c : Controller) (turns : List Turn) (k : String)
    → IsIndexed c.job_manager k
    → IsIndexed (run c turns).job_manager k
unfolding run
run_calls-IsIndexed c [] k v = v
run_calls-IsIndexed c (e ∷ es) k v =
    run_calls-IsIndexed (step c e.logs e.now e.call) es k
      (step_call-IsIndexed c e.logs e.now k e.call v)

-- In every history of a new controller, whatever clients submit, workers report, timers do and Raft
-- commits, and whichever appends to the log fail, the indexes of the job manager agree with the
-- statuses of the jobs, for every identifier.
pub history-IsIndexed :
    (config : Config) (turns : List Turn) (k : String)
    → IsIndexed (run (new_controller config) turns).job_manager k
unfolding new_controller Indexes.run
history-IsIndexed config turns k =
    run_calls-IsIndexed (new_controller config) turns k (run_new-IsIndexed [] k)
