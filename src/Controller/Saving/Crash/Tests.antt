-- ===== src/Controller/Saving/Crash/Tests.antt =====
-- internal/controller/controller.go: a snapshot of a manager with two jobs, and a crash in it.
use raft_recovery.Prelude.{ℕ, ◌≡◌, refl, true, none, some, List, [], ◌∷◌, String, lookup}
use mathlib.Core.Option as Option
use raft_recovery.Types.{Job, JobStatus, pending, in_flight, completed}
use raft_recovery.JobManager.{new_job_manager, not_pending}
use raft_recovery.JobManager.Recovery.{IsMap}
use raft_recovery.Wal.Event.{Event, EventType, dispatch, ack, new_event}
use raft_recovery.Wal.Event.Checks.{verify-new_event}
use raft_recovery.Wal.Writer.{written, handler_failed, new_wal, rotate, flush_pending}
use raft_recovery.Snapshot.Manager.{write}
use raft_recovery.Raft.Log.{new_memory_log_store}
use raft_recovery.Raft.Node.{Raft, new_raft}
use raft_recovery.Raft.Commands.{snapshot as compact}
use raft_recovery.Controller.Recover.{recover, replay_failed, snapshot_data}
use raft_recovery.Controller.Saving.{
  Stored, SaveCalls, take_snapshot, finish_snapshot, rotate_log, copy_data, compact_node,
}
use raft_recovery.Controller.Saving.Crash.{restarted, take_snapshot_recovers}
use raft_recovery.Controller.Saving.Crash.Partial.{take_snapshot_forgets}
use raft_recovery.Controller.Saving.Crash.Window.{recover_unrotated_fails}

abbrev job : String → JobStatus → Job
job id status = record {
  id = id;
  payload = "{}";
  status = status;
  attempt = 1;
  timeout = 5;
  deadline = none;
  created_at = 0;
  updated_at = 0;
  worker_id = "";
}

abbrev constant : List ℕ → ℕ
constant ns = 7

abbrev event : EventType → Event
event type = new_event constant type "b" 1 0

-- The job b was dispatched, and the log has the record.
abbrev stored : Stored
stored = record {
  job_manager = record {
    jobs = ("a", job "a" pending) ∷ ("b", job "b" in_flight) ∷ [];
    queue = "a" ∷ [];
    in_flight = "b" ∷ [];
    completed = [];
    dead = [];
    last_applied_index = 0;
  };
  node = none;
  disk = record { file = none; temp = none };
  wal = new_wal (written (event dispatch) ∷ []) 1;
}

-- Meanwhile b is acknowledged.
abbrev after : Stored
after = record stored { wal = new_wal (written (event dispatch) ∷ written (event ack) ∷ []) 1 }

abbrev calls : SaveCalls
calls = record {
  write_fails = none;
  files = record { writes = []; sync_ok = true; close_ok = true; rename_ok = true; open_ok = true };
}

abbrev saved : Stored
saved = record after {
  disk = (write after.disk none (copy_data stored)).final;
  wal = (rotate after.wal calls.files).0;
}

saves : take_snapshot stored after calls ≡ some (saved, [], none)
unfolding take_snapshot finish_snapshot rotate_log rotate write new_wal flush_pending
saves = refl

stored-IsMap : IsMap stored.job_manager.jobs
unfolding lookup
stored-IsMap = (refl, (refl, tt))

take_snapshot_recovers_example :
    let (jm, error) = recover constant 9 5 new_job_manager true saved.disk saved.wal.file in
    (error ≡ none) × (lookup "b" jm.jobs ≡ Option.map (restarted 9) (some (job "b" in_flight)))
unfolding lookup
take_snapshot_recovers_example =
    take_snapshot_recovers constant 9 5 new_job_manager stored after calls {saved = saved}
      {answers = []} "b" refl stored-IsMap saves

recover_unrotated_fails_example :
    (recover constant 9 5 new_job_manager true
      (write stored.disk none (copy_data stored)).final
      stored.wal.file).1
    ≡ some (replay_failed (handler_failed not_pending))
unfolding new_wal lookup new_event
recover_unrotated_fails_example =
    recover_unrotated_fails constant 9 5 new_job_manager stored (event dispatch) []
      {job = job "b" in_flight} refl stored-IsMap refl refl refl refl
      (verify-new_event constant dispatch "b" 1 0)

-- A node that has not applied anything, beside a job that is done.
abbrev node : Raft
node = new_raft (record { id = "n1"; peers = "n1" ∷ "n2" ∷ [] }) new_memory_log_store

abbrev replicated : Stored
replicated = record stored {
  job_manager = record (stored.job_manager) {
    jobs = ("a", job "a" completed) ∷ ("b", job "b" in_flight) ∷ [];
    queue = [];
    completed = "a" ∷ [];
  };
  node = some node;
}

abbrev kept : Stored
kept = record replicated {
  disk = (write replicated.disk none (copy_data replicated)).final;
  wal = (rotate replicated.wal calls.files).0;
}

keeps : take_snapshot replicated replicated calls ≡ some (kept, [], none)
unfolding take_snapshot finish_snapshot rotate_log rotate write new_wal flush_pending compact_node
    compact new_raft snapshot_data
keeps = refl

replicated-IsMap : IsMap replicated.job_manager.jobs
unfolding lookup
replicated-IsMap = (refl, (refl, tt))

take_snapshot_forgets_example :
    let (jm, error) = recover constant 9 5 new_job_manager true kept.disk kept.wal.file in
    (error ≡ none) × (lookup "a" jm.jobs ≡ none)
unfolding lookup
take_snapshot_forgets_example =
    take_snapshot_forgets constant 9 5 new_job_manager replicated replicated calls node
      {saved = kept} {answers = []} "a" refl replicated-IsMap keeps
