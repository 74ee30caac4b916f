-- ===== src/JobManager/Spec.antt =====
-- job_manager.go: what the manager promises, without its indexes: each job has a status and a count of
-- attempts, and the jobs that wait stand in a line.
use raft_recovery.Prelude.{
  ℕ, ◌+◌, ◌≡◌, refl, sym, ap, ◌∙◌, fun_ext, Bool, true, false, Option, none, some, List, [], ◌∷◌,
  ◌++◌, String, arith, eq_iff, str_eq, lookup, lookup-insert, contains, if◌then◌else◌,
}
use mathlib.Core.Option as Option
use raft_recovery.Types.{
  Job, JobStatus, pending, in_flight, completed, dead, is_pending, is_in_flight,
}
use raft_recovery.JobManager.{
  JobManager, JobError, duplicate_job, not_in_flight, job_not_found, not_pending, new_job_manager,
  enqueue, pop_pending, mark_in_flight, mark_completed, requeue, mark_dead, set_last_applied_index,
}
use raft_recovery.JobManager.Indexes.{
  Op, enqueues, pops, dispatches, completes, requeues, kills, applies, perform, step, run,
  run_new-IsIndexed, has,
}

pub record Entry : Type 0 where
  pub status : JobStatus
  pub attempts : ℕ

-- The jobs as a function, which has no order.
pub record Spec : Type 0 where
  pub entry : String → Option Entry
  pub line : List String

abbrev pub Verdict : Type 0
Verdict = Spec × Option JobError

abbrev put : Spec → String → Entry → Spec
put s id e = record s { entry = λ k. if str_eq id k then some e else s.entry k }

-- A known job whose status passes the test gets another entry; else the call is refused.
abbrev change : Spec → String → (JobStatus → Bool) → JobError → (Entry → Entry) → Verdict
change s id test error next = elim (s.entry id) [
  | none ↦ (s, some job_not_found)
  | some e ↦ if test e.status then (put s id (next e), none) else (s, some error)
]

abbrev line_up : String → Verdict → Verdict
line_up id (s, none) = (record s { line = s.line ++ id ∷ [] }, none)
line_up id (s, some e) = (s, some e)

-- The calls by their names. A job enters with the attempts that it brings.
abbrev pub spec_step : Spec → Op → Verdict
spec_step s (enqueues now job) = elim (s.entry job.id) [
  | some e ↦ (s, some duplicate_job)
  | none ↦ line_up job.id (put s job.id (record { status = pending; attempts = job.attempt }), none)
]
spec_step s pops = (record s { line = (elim s.line [ [] ↦ [] | id ∷ ids ↦ ids ]) }, none)
spec_step s (dispatches now id deadline) =
    change s id is_pending not_pending (λ e. record e { status = in_flight })
spec_step s (completes now id) =
    change s id is_in_flight not_in_flight (λ e. record e { status = completed })
spec_step s (requeues now id) = line_up id (
    change s id is_in_flight not_in_flight
      (λ e. record { status = pending; attempts = e.attempts + 1 }))
spec_step s (kills now id) =
    change s id (λ status. true) job_not_found (λ e. record e { status = dead })
spec_step s (applies index) = (s, none)

abbrev view_job : Job → Entry
view_job job = record { status = job.status; attempts = job.attempt }

-- The times, payloads, deadlines and indexes are forgotten.
abbrev pub view : JobManager → Spec
view jm = record { entry = λ k. Option.map view_job (lookup k jm.jobs); line = jm.queue }

view_entry :
    (jm : JobManager) (op : Op) (k : String)
    → (view (perform jm op).0).entry k ≡ (spec_step (view jm) op).0.entry k
unfolding perform enqueue pop_pending mark_in_flight mark_completed requeue mark_dead
    set_last_applied_index
view_entry jm (enqueues now job) k = grind (arith, eq_iff job.id k, lookup-insert)
view_entry jm pops k = ground arith
view_entry jm (dispatches now id deadline) k = grind (arith, eq_iff id k, lookup-insert)
view_entry jm (completes now id) k = grind (arith, eq_iff id k, lookup-insert)
view_entry jm (requeues now id) k = grind (arith, eq_iff id k, lookup-insert)
view_entry jm (kills now id) k = grind (arith, eq_iff id k, lookup-insert)
view_entry jm (applies index) k = refl

view_rest :
    (jm : JobManager) (op : Op)
    → ((view (perform jm op).0).line ≡ (spec_step (view jm) op).0.line)
      × ((perform jm op).1 ≡ (spec_step (view jm) op).1)
unfolding perform enqueue pop_pending mark_in_flight mark_completed requeue mark_dead
    set_last_applied_index
view_rest jm (enqueues now job) = ground arith
view_rest jm pops = ground arith
view_rest jm (dispatches now id deadline) = ground arith
view_rest jm (completes now id) = ground arith
view_rest jm (requeues now id) = ground arith
view_rest jm (kills now id) = ground arith
view_rest jm (applies index) = (refl, refl)

view-step : (jm : JobManager) (op : Op) → view (step jm op) ≡ (spec_step (view jm) op).0
unfolding step
view-step jm op = λ i. record {
  entry =
      fun_ext {f = (view (perform jm op).0).entry} {g = (spec_step (view jm) op).0.entry}
        (view_entry jm op) i;
  line = (view_rest jm op).0 i;
}

-- The state and the answers of the specification after some calls.
abbrev pub spec_run : Spec → List Op → Spec
spec_run s [] = s
spec_run s (op ∷ ops) = spec_run (spec_step s op).0 ops

abbrev pub spec_answers : Spec → List Op → List (Option JobError)
spec_answers s [] = []
spec_answers s (op ∷ ops) = (spec_step s op).1 ∷ spec_answers (spec_step s op).0 ops

-- The answers of the code.
abbrev pub answers : JobManager → List Op → List (Option JobError)
answers jm [] = []
answers jm (op ∷ ops) = (perform jm op).1 ∷ answers (step jm op) ops

abbrev pub nothing : Spec
nothing = record { entry = λ k. none; line = [] }

run-refines :
    (jm : JobManager) (ops : List Op)
    → (view (run jm ops) ≡ spec_run (view jm) ops) × (answers jm ops ≡ spec_answers (view jm) ops)
unfolding run
run-refines jm [] = (refl, refl)
run-refines jm (op ∷ ops) =
    let (state, said) = run-refines (step jm op) ops in
    let same = view-step jm op in
    (
      state ∙ ap (λ s. spec_run s ops) same,
      ap (λ e. e ∷ answers (step jm op) ops) (view_rest jm op).1
          ∙ ap (λ es. (spec_step (view jm) op).1 ∷ es) (said ∙ ap (λ s. spec_answers s ops) same),
    )

abbrev pub is_running : Spec → String → Bool
is_running s k = elim (s.entry k) [ none ↦ false | some e ↦ is_in_flight e.status ]

is_running-view :
    (jm : JobManager) (k : String) → is_running (view jm) k ≡ has is_in_flight (lookup k jm.jobs)
is_running-view jm k = ground arith

-- Through any calls on a new manager: it answers each call, with success or the same error, as the
-- specification does, its jobs and its queue are those of the specification, and its index of jobs in
-- flight holds the jobs that are in flight there.
pub run_new-refines :
    (ops : List Op)
    → let jm = run new_job_manager ops in
      let s = spec_run nothing ops in
      (answers new_job_manager ops ≡ spec_answers nothing ops)
      × (view jm ≡ s)
      × ((k : String) → contains k jm.in_flight ≡ is_running s k)
unfolding new_job_manager lookup
run_new-refines ops =
    let jm = run new_job_manager ops in
    let (state, said) = run-refines new_job_manager ops in
    (
      said,
      state,
      λ k.
          (run_new-IsIndexed ops k).in_flight_exact
          ∙ sym (is_running-view jm k)
          ∙ ap (λ s. is_running s k) state,
    )
