-- ===== src/Controller/Recover.antt =====
-- internal/controller/controller.go: recovery at the start, commands from Raft, snapshots.
pub mod Replay
mod Tests
use raft_recovery.Prelude.{
  ℕ, ◌+◌, Bool, true, false, Option, none, some, List, [], ◌∷◌, String, if◌then◌else◌, ◌||◌,
}
use raft_recovery.Types.{Job, JobStatus, SnapshotData, is_completed}
use raft_recovery.JobManager
use raft_recovery.JobManager.{
  JobManager, JobError, enqueue, mark_in_flight, mark_completed, requeue, mark_dead, get_job,
  is_dead, restore, snapshot, partial_snapshot, get_all_in_flight_jobs, set_last_applied_index,
}
use raft_recovery.Wal.Event.{Event, EventType, ack, retry, timeout, dead, other}
use raft_recovery.Wal.Event
use raft_recovery.Wal.Writer.{WalLine, ReplayError, replay}
use raft_recovery.Snapshot.Manager.{Disk, Loaded, SnapshotError, loaded, load_failed, load}

-- The handler of `replayWAL`: what an event does to the manager.
unfoldable pub apply_event : ℕ → ℕ → JobManager → EventType → String → JobManager × Option JobError
apply_event now task_timeout jm Event.enqueue id = (jm, none)
apply_event now task_timeout jm Event.dispatch id =
    if JobManager.is_completed jm id || is_dead jm id
    then (jm, none)
    else mark_in_flight jm now id (now + task_timeout)
apply_event now task_timeout jm ack id =
    if JobManager.is_completed jm id then (jm, none) else mark_completed jm now id
apply_event now task_timeout jm retry id = requeue jm now id
apply_event now task_timeout jm timeout id = requeue jm now id
apply_event now task_timeout jm dead id = mark_dead jm now id
apply_event now task_timeout jm (other type) id = (jm, none)

unfoldable pub replay_handler : ℕ → ℕ → JobManager → Event → JobManager × Option JobError
unfolding apply_event
replay_handler now task_timeout jm event = apply_event now task_timeout jm event.type event.job_id

-- The loop of `Start` over the jobs in flight; a refused one is only reported.
unfoldable pub requeue_all : JobManager → ℕ → List String → JobManager
requeue_all jm now [] = jm
requeue_all jm now (id ∷ ids) = requeue_all ((requeue jm now id).0) now ids

pub data StartError : Type 0 where
  snapshot_failed : SnapshotError → StartError
  replay_failed : ReplayError JobError → StartError

-- The recovery phase of `Start`, on a readable or unreadable snapshot file and the records of the log.
unfoldable pub recover :
    (List ℕ → ℕ) → ℕ → ℕ → JobManager → Bool → Disk → List WalLine → JobManager × Option StartError
unfolding replay_handler requeue_all
recover crc32 now task_timeout jm readable disk lines = elim (load readable disk) [
  | load_failed error ↦ (jm, some (snapshot_failed error))
  | loaded data' ↦
      let (replayed, error) =
        replay crc32 (replay_handler now task_timeout) (restore jm data') lines in
      elim error [
        | some e ↦ (replayed, some (replay_failed e))
        | none ↦ (requeue_all replayed now (get_all_in_flight_jobs replayed), none)
      ]
]

-- A command as `json.Unmarshal` reads it.
pub data RaftCommand : Type 0 where
  enqueue_command : List Job → RaftCommand
  ack_command : String → JobStatus → RaftCommand
  unknown_command undecodable : RaftCommand

unfoldable pub apply_enqueues : JobManager → ℕ → List Job → JobManager
apply_enqueues jm now [] = jm
apply_enqueues jm now (job ∷ jobs) =
    let known = apply_enqueues jm now jobs in
    let new = apply_enqueues ((enqueue jm now job).0) now jobs in
    elim (get_job jm job.id) [ some old ↦ known | none ↦ new ]

-- `handleRaftCommand`. An acknowledged job is marked under its own identifier.
unfoldable pub handle_raft_command : JobManager → ℕ → RaftCommand → JobManager
unfolding apply_enqueues
handle_raft_command jm now (enqueue_command jobs) = apply_enqueues jm now jobs
handle_raft_command jm now (ack_command id status) =
    if JobManager.is_completed jm id || is_dead jm id then jm else elim (get_job jm id) [
      | none ↦ jm
      | some job ↦
          if is_completed status
          then (mark_completed jm now job.id).0
          else (mark_dead jm now job.id).0
    ]
handle_raft_command jm now unknown_command = jm
handle_raft_command jm now undecodable = jm

-- A round of `applyLoop` that receives a valid message.
unfoldable pub apply_message : JobManager → ℕ → RaftCommand → ℕ → JobManager
unfolding handle_raft_command
apply_message jm now command index =
    set_last_applied_index (handle_raft_command jm now command) index

-- Phase 1 of `takeSnapshot`: with Raft only the active jobs, under the index that was applied last.
unfoldable pub snapshot_data : JobManager → Bool → ℕ → SnapshotData
snapshot_data jm has_raft wal_seq =
    if has_raft
    then record (partial_snapshot jm) { last_seq = jm.last_applied_index }
    else record (snapshot jm) { last_seq = wal_seq }
