-- ===== src/Controller/Recover/Tests.antt =====
-- internal/controller/controller.go: recovery and commands on a manager with two jobs.
use raft_recovery.Prelude.{ℕ, ◌≡◌, refl, true, none, some, List, [], ◌∷◌, String, lookup}
use raft_recovery.Types.{Job, JobStatus, SnapshotData, pending, in_flight}
use raft_recovery.JobManager.{JobManager, job_not_found, new_job_manager, restore}
use raft_recovery.Wal.Event.{Event, EventType, dispatch, new_event, verify_checksum}
use raft_recovery.Wal.Event.Checks.{verify-new_event}
use raft_recovery.Wal.Writer.{written, torn, handler_failed}
use raft_recovery.Snapshot.Manager.{Disk, decodes, load, loaded}
use raft_recovery.Controller.Recover.{recover, replay_failed}
use raft_recovery.Controller.Recover.Replay.{recover_dispatched_fails}

abbrev job : String → JobStatus → Job
job id status = record {
  id = id;
  payload = "{}";
  status = status;
  attempt = 1;
  timeout = 5;
  deadline = none;
  created_at = 0;
  updated_at = 0;
  worker_id = "";
}

abbrev busy : JobManager
busy = record {
  jobs = ("a", job "a" pending) ∷ ("b", job "b" in_flight) ∷ [];
  queue = "a" ∷ [];
  in_flight = "b" ∷ [];
  completed = [];
  dead = [];
  last_applied_index = 0;
}

-- A checksum that forgets everything.
abbrev constant : List ℕ → ℕ
constant ns = 7

abbrev event : EventType → Event
event type = new_event constant type "c" 1 0

event_checks : (type : EventType) → verify_checksum constant (event type) ≡ true
event_checks type = verify-new_event constant type "c" 1 0

abbrev saved : SnapshotData
saved = record { jobs = busy.jobs; schema_ver = 1; last_seq = 0 }

abbrev disk : Disk
disk = record { file = some (decodes saved); temp = none }

disk_loads : load true disk ≡ loaded saved
unfolding load
disk_loads = refl

recover_dispatched_fails_example :
    recover constant 9 5 new_job_manager true disk (written (event dispatch) ∷ torn ∷ [])
    ≡ (restore new_job_manager saved, some (replay_failed (handler_failed job_not_found)))
unfolding new_event lookup
recover_dispatched_fails_example =
    recover_dispatched_fails constant 9 5 new_job_manager disk saved (event dispatch) (torn ∷ [])
      disk_loads (refl, (refl, tt)) refl refl (event_checks dispatch)
