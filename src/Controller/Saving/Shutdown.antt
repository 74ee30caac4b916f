-- ===== src/Controller/Saving/Shutdown.antt =====
-- internal/controller/controller.go: a stop, and the next start.
mod Tests
use raft_recovery.Prelude.{
  ℕ, ◌+◌, ◌≡◌, refl, sym, subst, ap, ◌∙◌, true, false, Bool, Option, none, some, List, [], ◌∷◌,
  ◌++◌, String, arith, lookup, if◌then◌else◌,
}
use mathlib.Core.Option as Option
use raft_recovery.Types.{Job, SnapshotData}
use raft_recovery.JobManager.{JobManager}
use raft_recovery.JobManager.Recovery.{IsMap}
use raft_recovery.Wal.Writer.{
  Wal, WalError, FileCalls, Answer, rotate, close, flush_pending, flush_batch,
}
use raft_recovery.Wal.Writer.Drain.{flush_pending-batch}
use raft_recovery.Snapshot.Manager.{Disk, write}
use raft_recovery.Worker.Pool
use raft_recovery.Controller.Recover.{recover}
use raft_recovery.Controller.Saving.{
  Stored, Running, SaveCalls, SaveError, rotate_failed, has_node, copy_data, rotate_log,
  finish_snapshot, take_snapshot, stop,
}
use raft_recovery.Controller.Saving.Crash.{
  restarted, take_snapshot_recovers, finish_snapshot_wrote, write_ok,
}

-- The file system does what it is asked.
pub record IsSound (os : FileCalls) : Type 0 where
  pub closes : os.close_ok ≡ true
  pub renames : os.rename_ok ≡ true
  pub opens : os.open_ok ≡ true

rotate_sound :
    (w : Wal) (os : FileCalls)
    → w.is_closed ≡ false
    → IsSound os
    → ((rotate w os).2 ≡ none) × ((rotate w os).0.batch ≡ [])
unfolding rotate
rotate_sound w os running v =
    ground
      (arith, running, v.closes, v.renames, v.opens, flush_pending-batch w (os.writes, os.sync_ok))

close_keeps : (w : Wal) (os : FileCalls) → w.batch ≡ [] → (close w os).0.file ≡ w.file
unfolding close flush_pending
close_keeps w os empty = ground (arith, empty)

module _ (s : Stored) (files : FileCalls) where
  abbrev calls : SaveCalls
  calls = record { write_fails = none; files = files }

  abbrev rotated : Stored × List Answer × Option SaveError
  rotated = rotate_log (record s { disk = (write s.disk none (copy_data s)).final }) files

  snapshot_done :
      s.node ≡ none
      → s.wal.is_closed ≡ false
      → IsSound files
      → take_snapshot s s calls ≡ some (rotated.0, rotated.1, none)
  unfolding take_snapshot rotate_log
  snapshot_done n running v =
      let noded : has_node s ≡ false = rw n refl in
      ap (λ b. finish_snapshot b (copy_data s) s calls) noded
      ∙ finish_snapshot_wrote (copy_data s) s calls (write_ok s)
      ∙ ap
          (λ (o : Option WalError).
            some (rotated.0, rotated.1, elim o [ none ↦ none | some e ↦ some (rotate_failed e) ]))
          (rotate_sound s.wal files running v).0

  closed_file :
      (closing : FileCalls)
      → s.wal.is_closed ≡ false
      → IsSound files
      → (close rotated.0.wal closing).0.file ≡ rotated.0.wal.file
  unfolding rotate_log
  closed_file closing running v =
      close_keeps ((rotate s.wal files).0) closing (rotate_sound s.wal files running v).1

-- A stop of a controller without Raft, not stopped before, where the waits for workers and loops return,
-- none of these panics, the log is not closed until then, the jobs have each key once, and no system call
-- fails on the snapshot and at the rotation: it returns, and the next start brings back all the jobs as
-- they are when the waits have returned, those in flight waiting again with one attempt more.
pub stop_recovers :
    (crc32 : List ℕ → ℕ) (now task_timeout : ℕ) (fresh : JobManager) (r : Running)
    (settle : Stored → Option Stored) (s : Stored) (files closing : FileCalls)
    → r.stopped ≡ false
    → settle r.stored ≡ some s
    → s.node ≡ none
    → s.wal.is_closed ≡ false
    → IsMap s.job_manager.jobs
    → IsSound files
    → (r' : Running) × (answers : List Answer) × (stop r settle
          (record { write_fails = none; files = files })
          closing
        ≡ some (r', answers))
      × let (jm, error) =
          recover crc32 now task_timeout fresh true r'.stored.disk r'.stored.wal.file in
        (error ≡ none)
        × ((k : String)
            → lookup k jm.jobs ≡ Option.map (restarted now) (lookup k s.job_manager.jobs))
unfolding stop
stop_recovers crc32 now task_timeout fresh r settle s files closing running waits n opened m v =
    let saved = (rotated s files).0 in
    let done = snapshot_done s files n opened v in
    let closed = close saved.wal closing in
    let found : (k : String)
        → let (jm, error) = recover crc32 now task_timeout fresh true saved.disk closed.0.file in
          (error ≡ none)
          × (lookup k jm.jobs ≡ Option.map (restarted now) (lookup k s.job_manager.jobs)) =
      λ k.
        subst
          (λ file.
            let (jm, error) = recover crc32 now task_timeout fresh true saved.disk file in
            (error ≡ none)
            × (lookup k jm.jobs ≡ Option.map (restarted now) (lookup k s.job_manager.jobs)))
          (sym (closed_file s files closing opened v))
          (take_snapshot_recovers crc32 now task_timeout fresh s s (calls s files) {saved = saved}
            {answers = (rotated s files).1} k n m done) in
    (
      record { stopped = true; pool = Pool.stop r.pool; stored = record saved { wal = closed.0 } },
      (rotated s files).1 ++ closed.1,
      rw (stop, running, waits, done) refl,
      ((found "").0, λ k. (found k).1),
    )
