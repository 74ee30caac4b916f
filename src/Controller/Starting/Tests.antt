-- ===== src/Controller/Starting/Tests.antt =====
-- internal/controller/controller.go: a first start, with one job from another life.
use raft_recovery.Prelude.{
  ℕ, pos, ◌≡◌, refl, true, false, none, some, List, [], ◌∷◌, ◌++◌, lookup, replicate, length,
  String, ◌+◌, subst, ap,
}
use raft_recovery.Types.{in_flight, SnapshotData, is_in_flight}
use raft_recovery.JobManager.{
  new_job_manager, restore, restore_all, restore_job, requeue, get_all_in_flight_jobs,
}
use raft_recovery.JobManager.Indexes.{has}
use raft_recovery.JobManager.Recovery.{IsMap}
use raft_recovery.Wal.Writer.{new_wal, replay}
use raft_recovery.Snapshot.Manager.{Disk, decodes, Loaded, loaded, load_failed, load}
use raft_recovery.Worker.Pool.{Pool, new_pool}
use raft_recovery.Worker.Pool
use raft_recovery.Controller.Recover.{recover, requeue_all}
use raft_recovery.Controller.Starting.{
  Settings, Coordinator, dispatch_loop, result_loop, timeout_loop, snapshot_loop, apply_loop,
  started, start, start_loops,
}
use raft_recovery.Controller.Starting.Ready.{start_ready}

abbrev config : Settings
config = record {
  worker_count = 2;
  task_timeout = 5;
  max_retry = 3;
  wal_buffer_size = pos 8;
  wal_flush_interval = pos 0;
  disable_dispatch_loop = true;
}

abbrev coordinator : Coordinator
coordinator = record {
  job_manager = new_job_manager;
  wal = new_wal [] 8;
  flush_interval = 10_000_000;
  pool = new_pool 8;
  settings = config;
  loops = [];
  waiting = 0;
}

abbrev flying : SnapshotData
flying = record {
  jobs =
      (
        "a",
        record {
          id = "a";
          payload = "{}";
          status = in_flight;
          attempt = 1;
          timeout = 5;
          deadline = none;
          created_at = 0;
          updated_at = 0;
          worker_id = "";
        },
      )
      ∷ [];
  schema_ver = 1;
  last_seq = 0;
}

abbrev disk : Disk
disk = record { file = some (decodes flying); temp = none }

abbrev constant : List ℕ → ℕ
constant ns = 7

data_of : Loaded → SnapshotData
data_of (loaded data') = data'
data_of (load_failed e) = flying

disk-IsMap : (data' : SnapshotData) → load true disk ≡ loaded data' → IsMap data'.jobs
unfolding load lookup data_of
disk-IsMap data' h = subst (λ (d : SnapshotData). IsMap d.jobs) (ap data_of h) (refl, tt)

abbrev running : Coordinator
running = (start constant 9 coordinator true disk []).0

starts : start constant 9 coordinator true disk [] ≡ (running, started)
unfolding start start_loops recover requeue_all replay load restore restore_all restore_job requeue
    Pool.start new_pool get_all_in_flight_jobs new_job_manager
starts = refl

start_ready_example :
    ((k : String) → has is_in_flight (lookup k running.job_manager.jobs) ≡ false)
    × (running.pool
        ≡ record (coordinator.pool) { workers = coordinator.pool.workers + 2; started = true })
    × (running.loops
        ≡ coordinator.loops
          ++ replicate 0 dispatch_loop
          ++ result_loop ∷ timeout_loop ∷ snapshot_loop ∷ apply_loop ∷ [])
    × (running.waiting + length coordinator.loops ≡ coordinator.waiting + length running.loops)
start_ready_example =
    start_ready constant 9 coordinator true disk [] {c' = running} disk-IsMap starts
