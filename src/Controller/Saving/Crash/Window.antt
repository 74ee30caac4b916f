-- ===== src/Controller/Saving/Crash/Window.antt =====
-- internal/controller/controller.go: a crash between the snapshot and the rotation of the log.
use raft_recovery.Prelude.{
  ℕ, ◌≡◌, refl, sym, subst, ap, ◌∙◌, true, none, some, List, ◌∷◌, arith, lookup,
}
use raft_recovery.Types.{Job, SnapshotData, in_flight}
use raft_recovery.JobManager.{
  JobManager, not_pending, mark_in_flight, requeue, restore, snapshot, get_all_in_flight_jobs,
}
use raft_recovery.JobManager
use raft_recovery.Wal.Event.{Event, dispatch, verify_checksum}
use raft_recovery.JobManager.Recovery.{IsMap, restore-IsExact}
use raft_recovery.Wal.Writer.{replay, WalLine, written, handler_failed}
use raft_recovery.Snapshot.Manager.{loaded, load, write}
use raft_recovery.Controller.Recover.{recover, replay_handler, replay_failed}
use raft_recovery.Controller.Saving.{Stored, copy_data}
use raft_recovery.Controller.Saving.Crash.{copy_data-jobs, load_written, write_ok}

restored_dispatch :
    (crc32 : List ℕ → ℕ) (now task_timeout : ℕ) (fresh : JobManager) (copy : SnapshotData)
    (e : Event) (lines : List WalLine) {job : Job}
    → IsMap copy.jobs
    → lookup e.job_id copy.jobs ≡ some job
    → job.status ≡ in_flight
    → e.type ≡ dispatch
    → verify_checksum crc32 e ≡ true
    → replay crc32 (replay_handler now task_timeout) (restore fresh copy) (written e ∷ lines)
      ≡ (restore fresh copy, some (handler_failed not_pending))
unfolding replay replay_handler mark_in_flight JobManager.is_completed JobManager.is_dead
restored_dispatch crc32 now task_timeout fresh copy e lines {job} m h running d v =
    let (exact, same) = restore-IsExact fresh copy e.job_id m in
    ground (arith, h, running, d, v, same, exact.completed_exact, exact.dead_exact)

-- A crash on a node without Raft after the snapshot was written and before the log was rotated: if the
-- log begins with the valid record of the dispatch of a job that the snapshot has in flight, the restart
-- fails with a job that is not pending.
pub recover_unrotated_fails :
    (crc32 : List ℕ → ℕ) (now task_timeout : ℕ) (fresh : JobManager) (s : Stored) (e : Event)
    (lines : List WalLine) {job : Job}
    → s.node ≡ none
    → IsMap s.job_manager.jobs
    → s.wal.file ≡ written e ∷ lines
    → lookup e.job_id s.job_manager.jobs ≡ some job
    → job.status ≡ in_flight
    → e.type ≡ dispatch
    → verify_checksum crc32 e ≡ true
    → (recover crc32 now task_timeout fresh true
        (write s.disk none (copy_data s)).final
        s.wal.file).1
      ≡ some (replay_failed (handler_failed not_pending))
unfolding recover
recover_unrotated_fails crc32 now task_timeout fresh s e lines {job} n m file h running d v =
    let copy : SnapshotData = record (copy_data s) { schema_ver = 1 } in
    let l : load true (write s.disk none (copy_data s)).final ≡ loaded copy =
      load_written s.disk none (copy_data s) (write_ok s) in
    let jobs = copy_data-jobs s n in
    let r =
      restored_dispatch crc32 now task_timeout fresh copy e lines {job = job}
        (subst IsMap (sym jobs) m) (ap (lookup e.job_id) jobs ∙ h) running d v in
    ap
      (λ log.
        (recover crc32 now task_timeout fresh true (write s.disk none (copy_data s)).final log).1)
      file
    ∙ rw (recover, l, r) refl
