-- ===== src/JobManager/Lifecycle.antt =====
-- job_manager.go: the state machine of a job, from Pending to Completed or Dead.
use raft_recovery.Prelude.{
  is_some, ℕ, ◌+◌, ◌≡◌, ◌≢◌, ◌↔◌, Bool, true, not, refl, Option, none, some, List, [], ◌∷◌, String,
  arith, eq_iff, lookup, lookup-insert,
}
use raft_recovery.Types.{Job, is_pending, is_in_flight, pending, in_flight, completed, dead}
use raft_recovery.JobManager.{
  JobManager, enqueue, pop_pending, mark_in_flight, mark_completed, requeue, mark_dead,
  set_last_applied_index,
}
use raft_recovery.JobManager.Indexes.{
  has, Op, enqueues, pops, dispatches, completes, requeues, kills, applies, perform, step, run,
}

-- The ways in which an operation may change a stored job.
pub data Move (a b : Job) : Type 0 where
  keep : b ≡ a → Move a b
  dispatch : a.status ≡ pending → b.status ≡ in_flight → b.attempt ≡ a.attempt → Move a b
  finish : a.status ≡ in_flight → b.status ≡ completed → b.attempt ≡ a.attempt → Move a b
  retry : a.status ≡ in_flight → b.status ≡ pending → b.attempt ≡ a.attempt + 1 → Move a b
  bury : b.status ≡ dead → b.attempt ≡ a.attempt → Move a b

-- A job is never forgotten, starts as pending, and changes by moves.
abbrev pub Moves : Option Job → Option Job → Type 0
Moves none none = Unit {0}
Moves none (some b) = b.status ≡ pending
Moves (some a) none = ⊥
Moves (some a) (some b) = Move a b

Moves-refl : (o : Option Job) → Moves o o
Moves-refl none = tt
Moves-refl (some a) = keep refl

module _ (jm : JobManager) (k : String) (now : ℕ) where
  enqueue-Moves : (job : Job) → Moves (lookup k jm.jobs) (lookup k (enqueue jm now job).0.jobs)
  unfolding enqueue
  enqueue-Moves job = grind (arith, eq_iff job.id k, lookup-insert, Moves-refl (lookup k jm.jobs))

  mark_in_flight-Moves :
      (id : String) (deadline : ℕ)
      → Moves (lookup k jm.jobs) (lookup k (mark_in_flight jm now id deadline).0.jobs)
  unfolding mark_in_flight
  mark_in_flight-Moves id deadline =
      grind (arith, eq_iff id k, lookup-insert, Moves-refl (lookup k jm.jobs), dispatch)

  mark_completed-Moves :
      (id : String) → Moves (lookup k jm.jobs) (lookup k (mark_completed jm now id).0.jobs)
  unfolding mark_completed
  mark_completed-Moves id =
      grind (arith, eq_iff id k, lookup-insert, Moves-refl (lookup k jm.jobs), finish)

  requeue-Moves : (id : String) → Moves (lookup k jm.jobs) (lookup k (requeue jm now id).0.jobs)
  unfolding requeue
  requeue-Moves id = grind (arith, eq_iff id k, lookup-insert, Moves-refl (lookup k jm.jobs), retry)

  mark_dead-Moves : (id : String) → Moves (lookup k jm.jobs) (lookup k (mark_dead jm now id).0.jobs)
  unfolding mark_dead
  mark_dead-Moves id =
      grind (arith, eq_iff id k, lookup-insert, Moves-refl (lookup k jm.jobs), bury)

-- Whatever operation runs, a stored job stays stored and changes only along the state machine:
-- from pending to in flight, from there to completed or, with one more attempt, back to pending, and
-- from any status to dead. A new job is pending.
pub step-Moves :
    (jm : JobManager) (k : String) (op : Op) → Moves (lookup k jm.jobs) (lookup k (step jm op).jobs)
unfolding step set_last_applied_index pop_pending
step-Moves jm k (enqueues now job) = enqueue-Moves jm k now job
step-Moves jm k pops = ground (arith, Moves-refl (lookup k jm.jobs))
step-Moves jm k (dispatches now id deadline) = mark_in_flight-Moves jm k now id deadline
step-Moves jm k (completes now id) = mark_completed-Moves jm k now id
step-Moves jm k (requeues now id) = requeue-Moves jm k now id
step-Moves jm k (kills now id) = mark_dead-Moves jm k now id
step-Moves jm k (applies index) = Moves-refl (lookup k jm.jobs)

abbrev pub IsBuried : ℕ → Option Job → Type 0
IsBuried attempts none = ⊥
IsBuried attempts (some job) = (job.status ≡ dead) × (job.attempt ≡ attempts)

Moves-IsBuried :
    (attempts : ℕ) (o p : Option Job) → Moves o p → IsBuried attempts o → IsBuried attempts p
Moves-IsBuried attempts none p m b = elim b [ ]
Moves-IsBuried attempts (some a) none m b = m
Moves-IsBuried attempts (some a) (some c) (keep e) b = ground arith
Moves-IsBuried attempts (some a) (some c) (dispatch p q r) b = cc
Moves-IsBuried attempts (some a) (some c) (finish p q r) b = cc
Moves-IsBuried attempts (some a) (some c) (retry p q r) b = cc
Moves-IsBuried attempts (some a) (some c) (bury p q) b = ground arith

-- A dead job stays dead through any operations, and its count of attempts stays the same.
pub run-IsBuried :
    (jm : JobManager) (k : String) (attempts : ℕ) (ops : List Op)
    → IsBuried attempts (lookup k jm.jobs)
    → IsBuried attempts (lookup k (run jm ops).jobs)
unfolding run
run-IsBuried jm k attempts [] b = b
run-IsBuried jm k attempts (op ∷ ops) b =
    run-IsBuried (step jm op) k attempts ops (
      Moves-IsBuried attempts (lookup k jm.jobs) (lookup k (step jm op).jobs) (step-Moves jm k op)
        b)

-- A call that reports an error leaves the manager as it was.
pub refused_unchanged :
    (jm : JobManager) (op : Op) → (perform jm op).1 ≢ none → (perform jm op).0 ≡ jm
unfolding perform enqueue mark_in_flight mark_completed requeue mark_dead
refused_unchanged jm (enqueues now job) h = ground arith
refused_unchanged jm pops h = absurd (h refl)
refused_unchanged jm (dispatches now id deadline) h = ground arith
refused_unchanged jm (completes now id) h = ground arith
refused_unchanged jm (requeues now id) h = ground arith
refused_unchanged jm (kills now id) h = ground arith
refused_unchanged jm (applies index) h = absurd (h refl)

-- The jobs that a call accepts, by the status under which they are stored.
unfoldable pub accepts : JobManager → Op → Bool
accepts jm (enqueues now job) = not (is_some (lookup job.id jm.jobs))
accepts jm pops = true
accepts jm (dispatches now id deadline) = has is_pending (lookup id jm.jobs)
accepts jm (completes now id) = has is_in_flight (lookup id jm.jobs)
accepts jm (requeues now id) = has is_in_flight (lookup id jm.jobs)
accepts jm (kills now id) = is_some (lookup id jm.jobs)
accepts jm (applies index) = true

-- A call succeeds exactly when: for `Enqueue` the job is new; for `MarkInFlight` it is pending; for
-- `MarkCompleted` and `Requeue` it is in flight; for `MarkDead` it is known, whatever its status.
pub perform_ok_iff :
    (jm : JobManager) (op : Op) → ((perform jm op).1 ≡ none) ↔ (accepts jm op ≡ true)
unfolding perform accepts enqueue mark_in_flight mark_completed requeue mark_dead
perform_ok_iff jm (enqueues now job) = ground arith
perform_ok_iff jm pops = ground arith
perform_ok_iff jm (dispatches now id deadline) = ground arith
perform_ok_iff jm (completes now id) = ground arith
perform_ok_iff jm (requeues now id) = ground arith
perform_ok_iff jm (kills now id) = ground arith
perform_ok_iff jm (applies index) = ground arith
