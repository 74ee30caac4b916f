-- ===== src/Worker/Pool.antt =====
-- internal/worker/worker_pool.go and worker.go: the pool of workers with its two channels. A select
-- with several ready cases takes any: which one is an argument.
pub mod Lifecycle
pub mod Remote
mod Tests
use raft_recovery.Prelude.{
  ℕ, ◌+◌, Bool, true, false, Option, none, some, List, [], ◌∷◌, ◌++◌, String, length, ltb, leb,
  if◌then◌else◌, not, ◌&&◌, ◌||◌,
}

pub record Task : Type 0 where
  pub id : String
  pub payload : String
  pub timeout : ℕ

pub data PoolError : Type 0 where
  pool_closed pool_not_started already_started : PoolError

pub data ExecError : Type 0 where
  deadline_exceeded : ExecError

pub record Result : Type 0 where
  pub job_id : String
  pub success : Bool
  pub error : Option ExecError
  pub duration : ℕ

-- `close(p.taskCh)` and `close(p.stopCh)` come with `stopped`.
pub record Pool : Type 0 where
  pub workers : ℕ
  pub task_ch : List Task
  pub result_ch : List Result
  pub buffer_size : ℕ
  pub started : Bool
  pub stopped : Bool

unfoldable pub new_pool : ℕ → Pool
new_pool buffer_size = record {
  workers = 0;
  task_ch = [];
  result_ch = [];
  buffer_size = buffer_size;
  started = false;
  stopped = false;
}

unfoldable pub start : Pool → ℕ → Pool × Option PoolError
start p worker_count =
    if p.started
    then (p, some already_started)
    else (record p { workers = p.workers + worker_count; started = true }, none)

-- How `Submit` ends; it may have to wait for room in the channel.
pub data Submitted : Type 0 where
  sent waits : Submitted
  refused : PoolError → Submitted

unfoldable pub submit : Pool → Task → Pool × Submitted
submit p task =
    if not p.started
    then (p, refused pool_not_started)
    else if p.stopped
    then (p, refused pool_closed)
    else if ltb (length p.task_ch) p.buffer_size
    then (record p { task_ch = p.task_ch ++ task ∷ [] }, sent)
    else (p, waits)

-- `execute` for work that takes `work`, under a timeout: with both timers due at once either may be
-- read. The simulated failures are off: `rand.Intn(100) < 0` never holds.
unfoldable pub execute : ℕ → ℕ → Bool → Option ExecError
execute work timeout tie =
    if ltb timeout work || (not (ltb work timeout) && tie) then some deadline_exceeded else none

-- The result of a task as `Run` builds it.
unfoldable pub report : Task → ℕ → Bool → Result
unfolding execute
report task work tie =
    let error = execute work task.timeout tie in
    record {
      job_id = task.id;
      success = elim error [ none ↦ true | some e ↦ false ];
      error = error;
      duration = if ltb task.timeout work then task.timeout else work;
    }

-- A round of a worker's loop: the first task is executed, and its result is dropped if the channel of
-- results is full.
unfoldable pub work_round : Pool → ℕ → Bool → Pool
unfolding report
work_round p work tie = elim p.task_ch [
  | [] ↦ p
  | task ∷ tasks ↦
      if ltb (length p.result_ch) p.buffer_size
      then record p { task_ch = tasks; result_ch = p.result_ch ++ report task work tie ∷ [] }
      else record p { task_ch = tasks }
]

pub data Received : Type 0 where
  received : Result → Received
  closed no_result : Received

-- `ReceiveResult`: on a stopped pool with results left either case may be taken.
unfoldable pub receive_result : Pool → Bool → Pool × Received
receive_result p take_stop = elim p.result_ch [
  | [] ↦ (p, if p.stopped then closed else no_result)
  | result ∷ results ↦
      if p.stopped && take_stop
      then (p, closed)
      else (record p { result_ch = results }, received result)
]

unfoldable pub stop : Pool → Pool
stop p = if not p.started || p.stopped then p else record p { stopped = true }

unfoldable pub get_worker_count : Pool → ℕ
get_worker_count p = p.workers

unfoldable pub is_started : Pool → Bool
is_started p = p.started
