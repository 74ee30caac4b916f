-- ===== src/Controller/History.antt =====
-- internal/controller: the calls of clients, workers, timers and Raft as steps of one machine.
pub mod Invariant
mod Tests
use raft_recovery.Prelude.{
  ℕ, zero, suc, ◌+◌, ◌≡◌, refl, ap, ◌∙◌, sym, subst, true, false, Bool, Option, none, some, List,
  [], ◌∷◌, String, arith, Option-cases, Bool-cases, inl, inr, lookup, ◌||◌, if◌then◌else◌,
}
use raft_recovery.Types.{Job, JobStatus, is_completed}
use raft_recovery.JobManager
use raft_recovery.JobManager.{
  JobManager, enqueue, pop_pending, mark_in_flight, get_job, set_last_applied_index,
  new_job_manager, is_dead, mark_completed, mark_dead,
}
use raft_recovery.JobManager.Indexes.{
  Op, IsIndexed, step-IsIndexed, run_new-IsIndexed, enqueues, pops, dispatches, completes, kills,
  applies,
}
use raft_recovery.JobManager.Indexes as Indexes
use raft_recovery.Wal.Event.{EventType}
use raft_recovery.Wal.Event
use raft_recovery.Controller.Core.{
  Config, Controller, Logs, WorkResult, new_controller, append, log_enqueues, enqueue_all,
  enqueue_jobs, handle_result, timeout_tick, with_manager,
}
use raft_recovery.Controller.Dispatch.{
  Clock, pop_batch, log_dispatches, mark_all, dispatch_round, poll_all, Polled, poll, acknowledge,
}
use raft_recovery.Controller.Dispatch.Order.{log_dispatches-job_manager}
use raft_recovery.Controller.Recover.{
  RaftCommand, enqueue_command, ack_command, unknown_command, undecodable, apply_enqueues,
  handle_raft_command, apply_message,
}

-- A call, with the readings of the clock that `dispatchLoop` and `Poll` make.
pub data Call : Type 0 where
  submits : List Job → Call
  hands_out : Clock → ℕ → Call
  polls : Clock → ℕ → ℕ → Call
  reports : WorkResult → Call
  acknowledges : Option WorkResult → Call
  ticks : Call
  commits : RaftCommand → ℕ → Call

-- A call at a time, and which of its appends to the log succeed.
pub record Turn : Type 0 where
  pub call : Call
  pub logs : Logs
  pub now : ℕ

unfoldable pub step : Controller → Logs → ℕ → Call → Controller
step c logs now (submits jobs) = (enqueue_jobs c logs now jobs).0
step c logs now (hands_out clock start) = (dispatch_round c logs clock start).0
step c logs now (polls clock start max_jobs) = (poll c logs clock start max_jobs).0
step c logs now (reports result) = handle_result c logs now result
step c logs now (acknowledges result) = (acknowledge c logs now result).0
step c logs now ticks = timeout_tick c logs now
step c logs now (commits command index) =
    with_manager c (apply_message c.job_manager now command index)

unfoldable pub run : Controller → List Turn → Controller
run c [] = c
run c (e ∷ es) = run (step c e.logs e.now e.call) es
