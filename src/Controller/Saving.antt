-- ===== src/Controller/Saving.antt =====
-- internal/controller/controller.go: `takeSnapshot` and `Stop`. The mutex is held only while the state
-- is copied: what other threads do between this and the end of the snapshot is a second state, on
-- which the rest works. Encoding the data for the node of Raft is left out: `Snapshot` ignores it.
pub mod Crash
pub mod Shutdown
use raft_recovery.Prelude.{
  ℕ, Bool, true, false, Option, none, some, List, [], ◌++◌, ◌||◌, if◌then◌else◌,
}
use raft_recovery.Types.{SnapshotData}
use raft_recovery.JobManager.{JobManager}
use raft_recovery.Wal.Writer.{Wal, WalError, FileCalls, Answer, get_last_seq, rotate, close}
use raft_recovery.Snapshot.Manager.{Disk, Call, SnapshotError, Writing, write}
use raft_recovery.Raft.Node.{Raft}
use raft_recovery.Raft.Commands.{snapshot as compact}
use raft_recovery.Worker.Pool.{Pool}
use raft_recovery.Worker.Pool
use raft_recovery.Controller.Recover.{snapshot_data}

-- What a snapshot reads and writes.
pub record Stored : Type 0 where
  pub job_manager : JobManager
  pub node : Option Raft
  pub disk : Disk
  pub wal : Wal

pub data SaveError : Type 0 where
  snapshot_failed : SnapshotError → SaveError
  rotate_failed : WalError → SaveError

-- Whether the controller has a node, which phase 1 reads too.
abbrev pub has_node : Stored → Bool
has_node s = elim s.node [ none ↦ false | some rf ↦ true ]

-- Phase 1, under the mutex.
unfoldable pub copy_data : Stored → SnapshotData
copy_data s = snapshot_data s.job_manager (has_node s) (get_last_seq s.wal)

-- What the system calls of a snapshot do.
pub record SaveCalls : Type 0 where
  pub write_fails : Option Call
  pub files : FileCalls

-- Phase 4.
unfoldable pub rotate_log : Stored → FileCalls → Stored × List Answer × Option SaveError
rotate_log s files =
    let (wal, answers, error) = rotate s.wal files in
    (record s { wal = wal }, answers, elim error [ none ↦ none | some e ↦ some (rotate_failed e) ])

-- Phase 3; `none` is a panic of the node's log.
unfoldable pub compact_node : Option Raft → ℕ → Option (Option Raft)
compact_node none index = some none
compact_node (some rf) index = elim (compact rf index) [ none ↦ none | some rf' ↦ some (some rf') ]

-- Phases 2 to 4.
unfoldable pub finish_snapshot :
    Bool → SnapshotData → Stored → SaveCalls → Option (Stored × List Answer × Option SaveError)
unfolding rotate_log compact_node
finish_snapshot noded copy s os =
    let writing = write s.disk os.write_fails copy in
    let s' : Stored = record s { disk = writing.final } in
    elim writing.error [
      | some e ↦ some (s', [], some (snapshot_failed e))
      | none ↦ elim (if noded then compact_node s.node copy.last_seq else some s.node) [
        | none ↦ none
        | some node ↦ some (rotate_log (record s' { node = node }) os.files)
      ]
    ]

-- `takeSnapshot`, when `after` is the state that the other threads have made in the meantime.
unfoldable pub take_snapshot :
    Stored → Stored → SaveCalls → Option (Stored × List Answer × Option SaveError)
unfolding finish_snapshot copy_data
take_snapshot s after os = finish_snapshot (has_node s) (copy_data s) after os

pub record Running : Type 0 where
  pub stopped : Bool
  pub pool : Pool
  pub stored : Stored

-- `Stop`. `settle` is what the workers and loops leave when the waits for them, in `pool.Stop` and
-- `loopWg.Wait`, have returned; it is `none` if a wait never returns, or one of these goroutines panics. So
-- is the result, then and at a panic of the node's log. A second call does nothing. Errors are only
-- reported.
unfoldable pub stop :
    Running → (Stored → Option Stored) → SaveCalls → FileCalls → Option (Running × List Answer)
unfolding take_snapshot
stop r settle os closing = if r.stopped then some (r, []) else elim (settle r.stored) [
  | none ↦ none
  | some settled ↦ elim (take_snapshot settled settled os) [
    | none ↦ none
    | some (saved, answers, error) ↦
        let (wal, answers', error') = close saved.wal closing in
        some (
          record { stopped = true; pool = Pool.stop r.pool; stored = record saved { wal = wal } },
          answers ++ answers',
        )
  ]
]
