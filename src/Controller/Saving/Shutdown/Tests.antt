-- ===== src/Controller/Saving/Shutdown/Tests.antt =====
-- internal/controller/controller.go: a controller with one job stops.
use raft_recovery.Prelude.{ℕ, ◌≡◌, refl, true, false, none, some, List, [], ◌∷◌, String, lookup}
use mathlib.Core.Option as Option
use raft_recovery.Types.{Job, pending}
use raft_recovery.JobManager.{new_job_manager}
use raft_recovery.JobManager.Recovery.{IsMap}
use raft_recovery.Wal.Writer.{FileCalls, Answer, new_wal}
use raft_recovery.Worker.Pool.{new_pool}
use raft_recovery.Controller.Recover.{recover}
use raft_recovery.Controller.Saving.{Running, stop}
use raft_recovery.Controller.Saving.Crash.{restarted}
use raft_recovery.Controller.Saving.Shutdown.{IsSound, stop_recovers}

abbrev job : Job
job = record {
  id = "a";
  payload = "{}";
  status = pending;
  attempt = 1;
  timeout = 5;
  deadline = none;
  created_at = 0;
  updated_at = 0;
  worker_id = "";
}

abbrev running : Running
running = record {
  stopped = false;
  pool = new_pool 4;
  stored = record {
    job_manager = record {
      jobs = ("a", job) ∷ [];
      queue = "a" ∷ [];
      in_flight = [];
      completed = [];
      dead = [];
      last_applied_index = 0;
    };
    node = none;
    disk = record { file = none; temp = none };
    wal = new_wal [] 1;
  };
}

abbrev constant : List ℕ → ℕ
constant ns = 7

abbrev calls : FileCalls
calls = record { writes = []; sync_ok = true; close_ok = true; rename_ok = true; open_ok = true }

calls-IsSound : IsSound calls
calls-IsSound = record { closes = refl; renames = refl; opens = refl }

running-IsMap : IsMap running.stored.job_manager.jobs
unfolding lookup
running-IsMap = (refl, tt)

stop_recovers_example :
    (r' : Running) × (answers : List Answer) × (stop running
        (λ s. some s)
        (record { write_fails = none; files = calls })
        calls
      ≡ some (r', answers))
    × let (jm, error) =
        recover constant 9 5 new_job_manager true r'.stored.disk r'.stored.wal.file in
      (error ≡ none)
      × ((k : String) → lookup k jm.jobs ≡ Option.map (restarted 9) (lookup k (("a", job) ∷ [])))
unfolding new_wal
stop_recovers_example =
    stop_recovers constant 9 5 new_job_manager running (λ s. some s) running.stored calls calls refl
      refl refl refl running-IsMap calls-IsSound
