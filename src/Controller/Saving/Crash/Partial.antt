-- ===== src/Controller/Saving/Crash/Partial.antt =====
-- internal/controller/controller.go: what a restart finds after a snapshot of a controller with a node of
-- Raft.
use raft_recovery.Prelude.{
  ℕ, ◌≡◌, refl, sym, subst, ap, ◌∙◌, true, false, Bool, Option, none, some, List, [], ◌∷◌, String,
  arith, lookup, ◌||◌, if◌then◌else◌, Option-cases, inl, inr,
}
use mathlib.Core.Option as Option
use mathlib.Core.Option.{some-injective}
use raft_recovery.Types.{Job, SnapshotData, is_in_flight, is_pending}
use raft_recovery.JobManager.{JobManager, active_jobs, partial_snapshot}
use raft_recovery.JobManager.Indexes.{has}
use raft_recovery.JobManager.Recovery.{IsMap, lookup-active_jobs}
use raft_recovery.Wal.Writer.{Answer}
use raft_recovery.Snapshot.Manager.{loaded, load, write}
use raft_recovery.Raft.Node.{Raft}
use raft_recovery.Controller.Recover.{recover, snapshot_data}
use raft_recovery.Controller.Saving.{
  Stored, has_node, SaveCalls, copy_data, finish_snapshot, take_snapshot, rotate_log, compact_node,
}
use raft_recovery.Controller.Saving.Crash.{
  restarted, rotate_log_empties, rotate_log-disk, recover_loaded, lookup-restarted, load_written,
}

active_jobs-IsMap : (m : List (String × Job)) → IsMap m → IsMap (active_jobs m)
unfolding active_jobs
active_jobs-IsMap [] d = tt
active_jobs-IsMap ((id, job) ∷ m) d =
    let rest = active_jobs-IsMap m d.1 in
    let new = lookup-active_jobs m id d.1 in ground (arith, rest, new, d.0)

-- What a snapshot makes of the state, phase by phase.
noded_ok :
    (copy : SnapshotData) (s : Stored) (os : SaveCalls) {saved : Stored} {answers : List Answer}
    → finish_snapshot true copy s os ≡ some (saved, answers, none)
    → ((write s.disk os.write_fails copy).error ≡ none)
      × (saved.disk ≡ (write s.disk os.write_fails copy).final)
      × (saved.wal.file ≡ [])
unfolding finish_snapshot
noded_ok copy s os {saved} {answers} =
    elim (Option-cases (write s.disk os.write_fails copy).error) [
      | inr (error, failed) ↦ rw (failed, finish_snapshot) (λ e. cc)
      | inl ok ↦ elim (Option-cases (compact_node s.node copy.last_seq)) [
        | inl panic ↦ rw (ok, panic, finish_snapshot) (λ e. cc)
        | inr (node, compacted) ↦
            rw (ok, compacted, finish_snapshot)
              (λ e.
                let s' : Stored = record s {
                  disk = (write s.disk os.write_fails copy).final;
                  node = node;
                } in
                let same : rotate_log s' os.files ≡ (saved, answers, none) = some-injective _ _ e in
                (
                  refl,
                  ap (λ r. r.0.disk) (sym same) ∙ rotate_log-disk s' os.files,
                  ap (λ r. r.0.wal.file) (sym same)
                      ∙ rotate_log_empties s' os.files (ap (λ r. r.2) same),
                ))
      ]
    ]

copy_data-active :
    (s : Stored) (rf : Raft)
    → s.node ≡ some rf
    → (has_node s ≡ true) × ((copy_data s).jobs ≡ active_jobs s.job_manager.jobs)
unfolding copy_data snapshot_data partial_snapshot
copy_data-active s rf n = (rw n refl, rw n refl)

map_if :
    (now : ℕ) (b : Bool) (o : Option Job)
    → Option.map (restarted now) (if b then o else none)
      ≡ (if b then Option.map (restarted now) o else none)
map_if now true o = refl
map_if now false o = refl

-- On a node with Raft, a snapshot that succeeds: a restart brings back the jobs that were pending or in
-- flight when the state was copied, those in flight waiting again with one attempt more, and knows no
-- job that was completed or dead.
pub take_snapshot_forgets :
    (crc32 : List ℕ → ℕ) (now task_timeout : ℕ) (fresh : JobManager) (s after : Stored)
    (os : SaveCalls) (rf : Raft) {saved : Stored} {answers : List Answer} (k : String)
    → s.node ≡ some rf
    → IsMap s.job_manager.jobs
    → take_snapshot s after os ≡ some (saved, answers, none)
    → let (jm, error) = recover crc32 now task_timeout fresh true saved.disk saved.wal.file in
      let job = lookup k s.job_manager.jobs in
      (error ≡ none)
      × (lookup k jm.jobs ≡ (
          if has is_pending job || has is_in_flight job
          then Option.map (restarted now) job
          else none))
unfolding take_snapshot
take_snapshot_forgets crc32 now task_timeout fresh s after os rf {saved} {answers} k n m e =
    let (noded, jobs) = copy_data-active s rf n in
    let (ok, disk, log) =
      noded_ok (copy_data s) after os {saved = saved} {answers = answers}
        (ap (λ b. finish_snapshot b (copy_data s) after os) (sym noded) ∙ e) in
    let copy : SnapshotData = record (copy_data s) { schema_ver = 1 } in
    let l : load true saved.disk ≡ loaded copy =
      ap (load true) disk ∙ load_written after.disk os.write_fails (copy_data s) ok in
    let done =
      ap (recover crc32 now task_timeout fresh true saved.disk) log
      ∙ recover_loaded crc32 now task_timeout fresh saved.disk copy l in
    let active = active_jobs-IsMap s.job_manager.jobs m in
    (
      ap (λ r. r.1) done,
      ap (λ r. lookup k r.0.jobs) done
          ∙ lookup-restarted now fresh copy k (subst IsMap (sym jobs) active)
          ∙ ap (λ js. Option.map (restarted now) (lookup k js)) jobs
          ∙ ap (Option.map (restarted now)) (lookup-active_jobs s.job_manager.jobs k m)
          ∙ map_if now _ (lookup k s.job_manager.jobs),
    )
