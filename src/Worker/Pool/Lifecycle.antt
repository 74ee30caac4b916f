-- ===== src/Worker/Pool/Lifecycle.antt =====
-- internal/worker/worker_pool.go: started once, stopped for good; bounded channels; dropped results.
use raft_recovery.Prelude.{
  ℕ, ◌≤◌, ◌<◌, ◌≡◌, ◌⊎◌, refl, true, false, Bool, List, [], ◌∷◌, ◌++◌, length, length-append, ltb,
  Bool-cases, inl, inr, arith,
}
use raft_recovery.Worker.Pool.{
  Pool, Task, Result, pool_closed, start, submit, refused, execute, report, work_round,
  receive_result, stop, new_pool,
}

pub data Op : Type 0 where
  starts : ℕ → Op
  submits : Task → Op
  works : ℕ → Bool → Op
  receives : Bool → Op
  stops : Op

unfoldable pub step : Pool → Op → Pool
step p (starts n) = (start p n).0
step p (submits task) = (submit p task).0
step p (works work tie) = work_round p work tie
step p (receives take_stop) = (receive_result p take_stop).0
step p stops = stop p

unfoldable pub run : Pool → List Op → Pool
run p [] = p
run p (op ∷ ops) = run (step p op) ops

-- Started before stopped, and both channels within the buffer.
pub record IsBounded (p : Pool) : Type 0 where
  pub tasks : length p.task_ch ≤ p.buffer_size
  pub results : length p.result_ch ≤ p.buffer_size
  pub order : (p.started ≡ true) ⊎ (p.stopped ≡ false)

step-IsBounded : (p : Pool) (op : Op) → IsBounded p → IsBounded (step p op)
unfolding step start submit work_round receive_result stop
step-IsBounded p (starts n) v = ground arith
step-IsBounded p (submits task) v = ground (arith, length-append p.task_ch (task ∷ []))
step-IsBounded p (works work tie) v = grind (arith, length-append)
step-IsBounded p (receives take_stop) v = ground arith
step-IsBounded p stops v = ground arith

run-IsBounded : (p : Pool) (ops : List Op) → IsBounded p → IsBounded (run p ops)
unfolding run
run-IsBounded p [] v = v
run-IsBounded p (op ∷ ops) v = run-IsBounded (step p op) ops (step-IsBounded p op v)

-- After any calls and rounds on a new pool neither channel holds more than its buffer, and the pool is
-- stopped only if it was started.
pub run_new-IsBounded :
    (buffer_size : ℕ) (ops : List Op) → IsBounded (run (new_pool buffer_size) ops)
unfolding new_pool
run_new-IsBounded buffer_size ops =
    run-IsBounded (new_pool buffer_size) ops
      (record { tasks = omega arith; results = omega arith; order = inr refl })

step_stopped :
    (p : Pool) (op : Op)
    → p.started ≡ true
    → p.stopped ≡ true
    → ((step p op).started ≡ true) × ((step p op).stopped ≡ true)
unfolding step start submit work_round receive_result stop
step_stopped p (starts n) s t = ground arith
step_stopped p (submits task) s t = ground arith
step_stopped p (works work tie) s t = ground arith
step_stopped p (receives take_stop) s t = ground arith
step_stopped p stops s t = ground arith

-- Once a started pool is stopped, every later task is refused, whatever was called on it in between.
pub run_stopped :
    (p : Pool) (ops : List Op) (task : Task)
    → p.started ≡ true
    → p.stopped ≡ true
    → submit (run p ops) task ≡ (run p ops, refused pool_closed)
unfolding run submit
run_stopped p [] task s t = ground arith
run_stopped p (op ∷ ops) task s t =
    run_stopped (step p op) ops task (step_stopped p op s t).0 (step_stopped p op s t).1

report_faithful :
    (task : Task) (work : ℕ) (tie : Bool)
    → ((report task work tie).job_id ≡ task.id)
      × ((((report task work tie).success ≡ true) × (work ≤ task.timeout))
          ⊎ (((report task work tie).success ≡ false) × (task.timeout ≤ work)))
unfolding report execute
report_faithful task work tie = ground arith

-- A worker with a task waiting takes the first, and its result is behind the others in the channel if
-- that has room; if it is full the result is lost. It is a success if the work ends before the timeout,
-- and a failure if it would last longer.
pub work_round_reports :
    (p : Pool) (task : Task) (tasks : List Task) (work : ℕ) (tie : Bool)
    → p.task_ch ≡ task ∷ tasks
    → ((work_round p work tie).task_ch ≡ tasks)
      × (((p.buffer_size ≤ length p.result_ch) × ((work_round p work tie).result_ch ≡ p.result_ch))
          ⊎ ((length p.result_ch < p.buffer_size)
              × ((r : Result) × ((work_round p work tie).result_ch ≡ p.result_ch ++ r ∷ [])
                  × (r.job_id ≡ task.id)
                  × (((r.success ≡ true) × (work ≤ task.timeout))
                      ⊎ ((r.success ≡ false) × (task.timeout ≤ work))))))
unfolding work_round
work_round_reports p task tasks work tie h =
    elim (Bool-cases (ltb (length p.result_ch) p.buffer_size)) [
      | inl e ↦ (
        ground arith,
        inr (
          ground arith,
          (
            report task work tie,
            ground arith,
            (report_faithful task work tie).0,
            (report_faithful task work tie).1,
          ),
        ),
      )
      | inr e ↦ (ground arith, inl (ground arith, ground arith))
    ]
