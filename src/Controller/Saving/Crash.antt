-- ===== src/Controller/Saving/Crash.antt =====
-- internal/controller/controller.go: what a restart finds after a snapshot.
pub mod Window
pub mod Partial
mod Tests
use raft_recovery.Prelude.{
  ℕ, ◌+◌, ◌≡◌, refl, sym, subst, ap, ◌∙◌, true, false, Bool, Option, none, some, List, [], ◌∷◌,
  String, arith, eq_iff, lookup, lookup-insert, contains, ◌&&◌, ◌||◌, if◌then◌else◌, Option-cases,
  inl, inr,
}
use mathlib.Core.Option as Option
use mathlib.Core.Option.{some-injective}
use raft_recovery.Types.{Job, SnapshotData, pending, in_flight, is_in_flight, is_pending}
use raft_recovery.JobManager.{
  JobManager, not_pending, mark_in_flight, requeue, restore, snapshot, get_all_in_flight_jobs,
}
use raft_recovery.JobManager
use raft_recovery.Wal.Event.{Event, dispatch, verify_checksum}
use raft_recovery.JobManager.Indexes.{has, IsIndexed}
use raft_recovery.JobManager.Recovery.{IsMap, restore-IsExact}
use raft_recovery.Wal.Writer.{
  Answer, FileCalls, Wal, rotate, replay, WalLine, written, handler_failed,
}
use raft_recovery.Snapshot.Manager.{Disk, Call, SnapshotError, loaded, load, write}
use raft_recovery.Snapshot.Manager.Atomic.{load-write}
use raft_recovery.Controller.Recover.{
  requeue_all, recover, snapshot_data, replay_handler, replay_failed,
}
use raft_recovery.Controller.Saving.{
  Stored, has_node, SaveCalls, SaveError, snapshot_failed, copy_data, finish_snapshot,
  take_snapshot, rotate_log, compact_node,
}

-- A job after a restart: one that was in flight waits again, and the attempt counts.
abbrev pub restarted : ℕ → Job → Job
restarted now job =
    if is_in_flight job.status
    then record job {
      status = pending;
      attempt = job.attempt + 1;
      deadline = none;
      worker_id = "";
      updated_at = now;
    }
    else job

lookup-requeue :
    (jm : JobManager) (now : ℕ) (id k : String)
    → lookup k (requeue jm now id).0.jobs ≡ (
        if contains k (id ∷ [])
        then Option.map (restarted now) (lookup k jm.jobs)
        else lookup k jm.jobs)
unfolding requeue contains
lookup-requeue jm now id k = grind (arith, eq_iff id k, lookup-insert)

restarted_twice :
    (now : ℕ) (o : Option Job)
    → Option.map (restarted now) (Option.map (restarted now) o) ≡ Option.map (restarted now) o
restarted_twice now none = refl
restarted_twice now (some job) = ap some (ground arith)

lookup-requeue_all :
    (jm : JobManager) (now : ℕ) (k : String) (ids : List String)
    → lookup k (requeue_all jm now ids).jobs
      ≡ (if contains k ids then Option.map (restarted now) (lookup k jm.jobs) else lookup k jm.jobs)
unfolding requeue_all contains
lookup-requeue_all jm now k [] = refl
lookup-requeue_all jm now k (id ∷ ids) =
    let rest = lookup-requeue_all ((requeue jm now id).0) now k ids in
    let one = lookup-requeue jm now id k in
    ground (arith, rest, one, restarted_twice now (lookup k jm.jobs))

-- A job that is not in flight is left alone by a restart.
restarted_only :
    (now : ℕ) (o : Option Job)
    → (if has is_in_flight o then Option.map (restarted now) o else o)
      ≡ Option.map (restarted now) o
restarted_only now none = refl
restarted_only now (some job) = ground arith

-- What the rotation leaves on disk, where it reports no error.
rotate_empties : (w : Wal) (os : FileCalls) → (rotate w os).2 ≡ none → (rotate w os).0.file ≡ []
unfolding rotate
rotate_empties w os e = ground arith

pub rotate_log_empties :
    (s : Stored) (os : FileCalls) → (rotate_log s os).2 ≡ none → (rotate_log s os).0.wal.file ≡ []
unfolding rotate_log
rotate_log_empties s os e = rotate_empties s.wal os (ground (arith, e))

pub rotate_log-disk : (s : Stored) (os : FileCalls) → (rotate_log s os).0.disk ≡ s.disk
unfolding rotate_log
rotate_log-disk s os = refl

pub finish_snapshot_wrote :
    (copy : SnapshotData) (s : Stored) (os : SaveCalls)
    → (write s.disk os.write_fails copy).error ≡ none
    → finish_snapshot false copy s os
      ≡ some (rotate_log (record s { disk = (write s.disk os.write_fails copy).final }) os.files)
unfolding finish_snapshot
finish_snapshot_wrote copy s os ok = rw (finish_snapshot, ok) refl

finish_snapshot_failed :
    (copy : SnapshotData) (s : Stored) (os : SaveCalls) {e : SnapshotError}
    → (write s.disk os.write_fails copy).error ≡ some e
    → finish_snapshot false copy s os
      ≡ some (
        record s { disk = (write s.disk os.write_fails copy).final },
        [],
        some (snapshot_failed e),
      )
unfolding finish_snapshot
finish_snapshot_failed copy s os failed = rw (finish_snapshot, failed) refl

-- A snapshot without Raft that succeeds has written its copy and emptied the log.
finish_snapshot_ok :
    (copy : SnapshotData) (s : Stored) (os : SaveCalls) {saved : Stored} {answers : List Answer}
    → finish_snapshot false copy s os ≡ some (saved, answers, none)
    → ((write s.disk os.write_fails copy).error ≡ none)
      × (saved.disk ≡ (write s.disk os.write_fails copy).final)
      × (saved.wal.file ≡ [])
finish_snapshot_ok copy s os {saved} {answers} e =
    elim (Option-cases (write s.disk os.write_fails copy).error) [
      | inl ok ↦
          let rotated =
            rotate_log (record s { disk = (write s.disk os.write_fails copy).final }) os.files in
          let same : rotated ≡ (saved, answers, none) =
            some-injective _ _ (sym (finish_snapshot_wrote copy s os ok) ∙ e) in
          (
            ok,
            ap (λ r. r.0.disk) (sym same) ∙ rotate_log-disk _ os.files,
            ap (λ r. r.0.wal.file) (sym same) ∙ rotate_log_empties _ os.files (ap (λ r. r.2) same),
          )
      | inr (error, failed) ↦
          absurd (some_error (sym (finish_snapshot_failed copy s os failed) ∙ e))
    ]
  where
    some_error :
        {t : Stored} {e : SaveError}
        → ◌≡◌ {A = Option (Stored × List Answer × Option SaveError)}
            (some (t, [], some e))
            (some (saved, answers, none))
        → ⊥
    some_error p = cc

-- A restart from a snapshot and an empty log.
pub recover_loaded :
    (crc32 : List ℕ → ℕ) (now task_timeout : ℕ) (fresh : JobManager) (disk : Disk)
    (copy : SnapshotData)
    → load true disk ≡ loaded copy
    → let jm = restore fresh copy in
      recover crc32 now task_timeout fresh true disk []
      ≡ (requeue_all jm now (get_all_in_flight_jobs jm), none)
unfolding recover replay
recover_loaded crc32 now task_timeout fresh disk copy l = rw (recover, l) refl

pub lookup-restarted :
    (now : ℕ) (fresh : JobManager) (copy : SnapshotData) (k : String)
    → IsMap copy.jobs
    → let jm = restore fresh copy in
      lookup k (requeue_all jm now (get_all_in_flight_jobs jm)).jobs
      ≡ Option.map (restarted now) (lookup k copy.jobs)
unfolding get_all_in_flight_jobs
lookup-restarted now fresh copy k m =
    let (v, same) = restore-IsExact fresh copy k m in
    let jm = restore fresh copy in
    lookup-requeue_all jm now k jm.in_flight
    ∙ ap (λ b. if b then Option.map (restarted now) (lookup k jm.jobs) else lookup k jm.jobs)
        v.in_flight_exact
    ∙ restarted_only now (lookup k jm.jobs)
    ∙ ap (Option.map (restarted now)) same

pub copy_data-jobs : (s : Stored) → s.node ≡ none → (copy_data s).jobs ≡ s.job_manager.jobs
unfolding copy_data snapshot_data snapshot
copy_data-jobs s n = rw n refl

pub write_ok : (s : Stored) → (write s.disk none (copy_data s)).error ≡ none
unfolding write
write_ok s = refl

pub load_written :
    (disk : Disk) (fails : Option Call) (copy : SnapshotData)
    → (write disk fails copy).error ≡ none
    → load true (write disk fails copy).final ≡ loaded (record copy { schema_ver = 1 })
load_written disk fails copy ok = elim (load-write disk fails copy) [
  | inl (o, l) ↦ l
  | inr (failed, l) ↦ absurd (failed ok)
]

-- On a node without Raft, a snapshot that succeeds: whatever other threads did between the copy of the
-- state and the end of the snapshot, a restart brings back the jobs as they were copied, those in flight
-- waiting again with one attempt more, and none of the changes that were logged in between.
pub take_snapshot_recovers :
    (crc32 : List ℕ → ℕ) (now task_timeout : ℕ) (fresh : JobManager) (s after : Stored)
    (os : SaveCalls) {saved : Stored} {answers : List Answer} (k : String)
    → s.node ≡ none
    → IsMap s.job_manager.jobs
    → take_snapshot s after os ≡ some (saved, answers, none)
    → let (jm, error) = recover crc32 now task_timeout fresh true saved.disk saved.wal.file in
      (error ≡ none) × (lookup k jm.jobs ≡ Option.map (restarted now) (lookup k s.job_manager.jobs))
unfolding take_snapshot
take_snapshot_recovers crc32 now task_timeout fresh s after os {saved} {answers} k n m e =
    let noded : has_node s ≡ false = rw n refl in
    let (ok, disk, log) =
      finish_snapshot_ok (copy_data s) after os {saved = saved} {answers = answers}
        (ap (λ b. finish_snapshot b (copy_data s) after os) (sym noded) ∙ e) in
    let copy : SnapshotData = record (copy_data s) { schema_ver = 1 } in
    let l : load true saved.disk ≡ loaded copy =
      ap (load true) disk ∙ load_written after.disk os.write_fails (copy_data s) ok in
    let jobs = copy_data-jobs s n in
    let done =
      ap (recover crc32 now task_timeout fresh true saved.disk) log
      ∙ recover_loaded crc32 now task_timeout fresh saved.disk copy l in
    (
      ap (λ r. r.1) done,
      ap (λ r. lookup k r.0.jobs) done
          ∙ lookup-restarted now fresh copy k (subst IsMap (sym jobs) m)
          ∙ ap (λ js. Option.map (restarted now) (lookup k js)) jobs,
    )
