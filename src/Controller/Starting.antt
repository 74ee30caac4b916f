-- ===== src/Controller/Starting.antt =====
-- internal/controller/controller.go: `NewController`, `Start` with the goroutines that it makes, a round
-- of `resultLoop` and of `applyLoop`, and `GetStatus`. The system calls of `NewWAL`, the snapshot file and
-- the records of the log are arguments; durations are in nanoseconds.
pub mod Ready
mod Tests
use raft_recovery.Prelude.{
  ℕ, zero, suc, ◌+◌, ◌-◌, Bool, true, false, Option, none, some, List, [], ◌∷◌, ◌++◌, String, ℤ,
  pos, negsuc, length, replicate, if◌then◌else◌,
}
use raft_recovery.JobManager.{JobManager, Stats, new_job_manager, set_last_applied_index, stats}
use raft_recovery.Wal.Writer.{Wal, WalLine, new_wal}
use raft_recovery.Snapshot.Manager.{Disk}
use raft_recovery.Worker.Pool.{
  Pool, PoolError, Received, received, closed, no_result, new_pool, receive_result,
}
use raft_recovery.Worker.Pool
use raft_recovery.Raft.Commands.{ApplyMsg}
use raft_recovery.Controller.Core.{Controller, Logs, WorkResult, handle_result}
use raft_recovery.Controller.Recover.{StartError, RaftCommand, recover, handle_raft_command}

pub record Settings : Type 0 where
  pub worker_count : ℕ
  pub task_timeout : ℕ
  pub max_retry : ℕ
  pub wal_buffer_size : ℤ
  pub wal_flush_interval : ℤ
  pub disable_dispatch_loop : Bool

-- The value of a setting, or its default if it is not positive.
unfoldable pub or_default : ℤ → ℕ → ℕ
or_default (pos zero) default = default
or_default (pos (suc n)) default = suc n
or_default (negsuc n) default = default

-- The goroutines of a controller.
pub data Loop : Type 0 where
  dispatch_loop result_loop timeout_loop snapshot_loop apply_loop : Loop

-- `waiting` is the count of `loopWg`.
pub record Coordinator : Type 0 where
  pub job_manager : JobManager
  pub wal : Wal
  pub flush_interval : ℕ
  pub pool : Pool
  pub settings : Settings
  pub loops : List Loop
  pub waiting : ℕ

pub data Created : Type 0 where
  created : Coordinator → Created
  open_failed : Created
  panicked : Created

-- The parts of a new controller, on a log file with these records. The pool gets the buffer size as it is
-- set, and a channel of negative size is a panic.
unfoldable pub new_coordinator : Settings → Bool → List WalLine → Created
unfolding or_default
new_coordinator config opens file =
    if opens
    then elim config.wal_buffer_size [
      | negsuc n ↦ panicked
      | pos buffer_size ↦ created (record {
        job_manager = new_job_manager;
        wal = new_wal file (or_default config.wal_buffer_size 100);
        flush_interval = or_default config.wal_flush_interval 10_000_000;
        pool = new_pool buffer_size;
        settings = config;
        loops = [];
        waiting = 0;
      })
    ]
    else open_failed

pub data Started : Type 0 where
  started : Started
  recovery_failed : StartError → Started
  pool_failed : PoolError → Started

abbrev pub num_dispatchers : Settings → ℕ
num_dispatchers config = if config.disable_dispatch_loop then 0 else 4

-- Phase 3 of `Start`: the loops, and what the wait group counts.
unfoldable pub start_loops : Coordinator → Coordinator
start_loops c =
    let dispatchers = num_dispatchers c.settings in
    record c {
      loops =
          c.loops
          ++ replicate dispatchers dispatch_loop
          ++ result_loop ∷ timeout_loop ∷ snapshot_loop ∷ apply_loop ∷ [];
      waiting = c.waiting + (3 + dispatchers) + 1;
    }

-- `Start`: recovery, the pool, and the loops; an error ends it.
unfoldable pub start :
    (List ℕ → ℕ) → ℕ → Coordinator → Bool → Disk → List WalLine → Coordinator × Started
unfolding start_loops
start crc32 now c readable disk lines =
    let (recovered, error) =
      recover crc32 now c.settings.task_timeout c.job_manager readable disk lines in
    let c' : Coordinator = record c { job_manager = recovered } in
    let (pool, refused) = Pool.start c.pool c.settings.worker_count in
    elim error [
      | some e ↦ (c', recovery_failed e)
      | none ↦ elim refused [
        | some e ↦ (c', pool_failed e)
        | none ↦ (start_loops (record c' { pool = pool }), started)
      ]
    ]

-- A round of `resultLoop`: it ends when the pool is closed.
pub data Round : Type 0 where
  goes_on ends : Round

unfoldable pub result_round : Controller → Pool → Logs → ℕ → Bool → Controller × Pool × Round
result_round c pool logs now take_stop =
    let (pool', got) = receive_result pool take_stop in
    elim got [
      | received result ↦ (
        handle_result c logs now (record { job_id = result.job_id; success = result.success }),
        pool',
        goes_on,
      )
      | closed ↦ (c, pool', ends)
      | no_result ↦ (c, pool', goes_on)
    ]

-- A round of `applyLoop` that gets a message; `decode` is what `json.Unmarshal` makes of its command.
unfoldable pub apply_round : (String → RaftCommand) → JobManager → ℕ → ApplyMsg → JobManager
apply_round decode jm now msg =
    if msg.command_valid
    then set_last_applied_index (handle_raft_command jm now (decode msg.command)) msg.command_index
    else jm

pub record Status : Type 0 where
  pub uptime : ℕ
  pub workers : ℕ
  pub pending : ℕ
  pub in_flight : ℕ
  pub completed : ℕ
  pub dead : ℕ

unfoldable pub get_status : Coordinator → ℕ → ℕ → Status
get_status c start_time now =
    let s = stats c.job_manager in
    record {
      uptime = now - start_time;
      workers = c.settings.worker_count;
      pending = s.pending;
      in_flight = s.in_flight;
      completed = s.completed;
      dead = s.dead;
    }
