-- ===== src/Cli/Enqueueing.antt =====
-- internal/cli/cli.go and internal/controller/controller.go: what a local `enqueue` leaves behind. The
-- command ends without stopping its controller, so that only the files stay.
mod Tests
use raft_recovery.Prelude.{
  ℕ, ◌≡◌, refl, ap, ◌∙◌, sym, subst, Bool, true, false, Option, none, some, List, [], ◌∷◌, String,
  map, if◌then◌else◌, arith, Bool-cases, str_eq, Option-cases, inl, inr, lookup, lookup-insert,
  eq_iff, contains,
}
use raft_recovery.Types.{Job, SnapshotData}
use raft_recovery.JobManager.{
  JobManager, get_all_in_flight_jobs, enqueue, restore, mark_in_flight, mark_completed, mark_dead,
  requeue,
}
use raft_recovery.JobManager.Recovery.{IsMap, restore-IsExact}
use raft_recovery.Wal.Event.{EventType}
use raft_recovery.Wal.Event
use raft_recovery.Wal.Writer.{WalLine, written, torn, replay}
use raft_recovery.Snapshot.Manager.{Disk, loaded, load}
use raft_recovery.Controller.Core.{Controller, Logs, enqueue_jobs, enqueue_all, log_enqueues}
use raft_recovery.Controller.Recover.{recover, replay_handler, apply_event, requeue_all}
use raft_recovery.Cli.{JobInput, Loops, local_job, enqueue_local}

-- Whether the manager has a job under the identifier.
abbrev pub stored : String → JobManager → Bool
stored k jm = elim (lookup k jm.jobs) [ none ↦ false | some job ↦ true ]

-- No record of the log brings a job that the manager lacks.
apply_event-stored :
    (now task_timeout : ℕ) (jm : JobManager) (type : EventType) (id k : String)
    → stored k jm ≡ false
    → stored k (apply_event now task_timeout jm type id).0 ≡ false
unfolding apply_event mark_in_flight mark_completed requeue mark_dead
apply_event-stored now task_timeout jm Event.enqueue id k h = h
apply_event-stored now task_timeout jm Event.dispatch id k h =
    grind (arith, eq_iff id k, lookup-insert)
apply_event-stored now task_timeout jm Event.ack id k h = grind (arith, eq_iff id k, lookup-insert)
apply_event-stored now task_timeout jm Event.retry id k h =
    grind (arith, eq_iff id k, lookup-insert)
apply_event-stored now task_timeout jm Event.timeout id k h =
    grind (arith, eq_iff id k, lookup-insert)
apply_event-stored now task_timeout jm Event.dead id k h = grind (arith, eq_iff id k, lookup-insert)
apply_event-stored now task_timeout jm (Event.other type) id k h = h

module _ (crc32 : List ℕ → ℕ) (now task_timeout : ℕ) (k : String) where
  replay-stored :
      (jm : JobManager) (lines : List WalLine)
      → stored k jm ≡ false
      → stored k (replay crc32 (replay_handler now task_timeout) jm lines).0 ≡ false
  unfolding replay replay_handler
  replay-stored jm [] h = h
  replay-stored jm (torn ∷ lines) h = h
  replay-stored jm (written e ∷ lines) h =
      let h' = apply_event-stored now task_timeout jm e.type e.job_id k h in
      ground (arith, h, h', replay-stored (replay_handler now task_timeout jm e).0 lines h')

  requeue_all-stored :
      (jm : JobManager) (ids : List String)
      → stored k jm ≡ false
      → stored k (requeue_all jm now ids) ≡ false
  unfolding requeue_all requeue apply_event
  requeue_all-stored jm [] h = h
  requeue_all-stored jm (id ∷ ids) h =
      requeue_all-stored ((requeue jm now id).0) ids
        (apply_event-stored now task_timeout jm Event.retry id k h)

  recover-stored :
      (jm : JobManager) (disk : Disk) (lines : List WalLine) {data' : SnapshotData}
      → load true disk ≡ loaded data'
      → IsMap data'.jobs
      → lookup k data'.jobs ≡ none
      → stored k (recover crc32 now task_timeout jm true disk lines).0 ≡ false
  unfolding recover
  recover-stored jm disk lines {data'} l m absent =
      let kept : stored k (restore jm data') ≡ false =
        ap (λ found. elim found [ none ↦ false | some job ↦ true ])
          ((restore-IsExact jm data' k m).1 ∙ absent) in
      let replayed = replay crc32 (replay_handler now task_timeout) (restore jm data') lines in
      let gone = replay-stored (restore jm data') lines kept in
      ground
        (arith, l, gone, requeue_all-stored replayed.0 (get_all_in_flight_jobs replayed.0) gone)

enqueue-stored :
    (jm : JobManager) (now : ℕ) (job : Job) (k : String)
    → stored k jm ≡ true
    → stored k (enqueue jm now job).0 ≡ true
unfolding enqueue
enqueue-stored jm now job k h = grind (arith, eq_iff job.id k, lookup-insert)

enqueue_all-stored :
    (jm : JobManager) (now : ℕ) (jobs : List Job) (k : String)
    → stored k jm ≡ true
    → stored k (enqueue_all jm now jobs).0 ≡ true
unfolding enqueue_all
enqueue_all-stored jm now [] k h = h
enqueue_all-stored jm now (job ∷ jobs) k h =
    let h' = enqueue-stored jm now job k h in
    ground (arith, h', enqueue_all-stored ((enqueue jm now job).0) now jobs k h')

enqueue_stores :
    (jm : JobManager) (now : ℕ) (job : Job)
    → (enqueue jm now job).1 ≡ none
    → stored job.id (enqueue jm now job).0 ≡ true
unfolding enqueue
enqueue_stores jm now job h = grind (arith, eq_iff job.id job.id, lookup-insert)

enqueue_all_stores :
    (jm : JobManager) (now : ℕ) (inputs : List JobInput) (k : String)
    → contains k (map (λ j. j.id) inputs) ≡ true
    → (enqueue_all jm now (map local_job inputs)).1 ≡ none
    → stored k (enqueue_all jm now (map local_job inputs)).0 ≡ true
unfolding enqueue_all contains
enqueue_all_stores jm now [] k c e = cc
enqueue_all_stores jm now (j ∷ js) k c e = elim (Option-cases (enqueue jm now (local_job j)).1) [
  | inr (error, failed) ↦ absurd (ground (arith, failed, e))
  | inl done ↦
      let jm' = (enqueue jm now (local_job j)).0 in
      elim (Bool-cases (str_eq j.id k)) [
        | inl same ↦
            let first : stored k jm' ≡ true =
              subst (λ i. stored i jm' ≡ true) ((eq_iff j.id k).0 same)
                (enqueue_stores jm now (local_job j) done) in
            ground (arith, done, enqueue_all-stored jm' now (map local_job js) k first)
        | inr apart ↦ ground (arith, done, enqueue_all_stores jm' now js k)
      ]
]

enqueue_jobs_stores :
    (c : Controller) (logs : Logs) (now : ℕ) (inputs : List JobInput) (k : String)
    → contains k (map (λ j. j.id) inputs) ≡ true
    → (enqueue_jobs c logs now (map local_job inputs)).1 ≡ none
    → stored k (enqueue_jobs c logs now (map local_job inputs)).0.job_manager ≡ true
unfolding enqueue_jobs
enqueue_jobs_stores c logs now inputs k among =
    let logged = log_enqueues c logs (map local_job inputs) in
    elim (Option-cases logged.1) [
      | inr (error, failed) ↦ rw (enqueue_jobs, failed) (λ e. cc)
      | inl done ↦
          rw (enqueue_jobs, done)
            (λ e. enqueue_all_stores logged.0.job_manager now inputs k among e)
    ]

-- A local submission that reports success, whatever the loops of the controller do beside it, as long as
-- none of them removes the job in question: at the end the controller has the job. But a restart from a
-- snapshot that loads, has each key once and lacks the job does not have it, whether the restart succeeds
-- or not, and whatever the log holds by then.
pub enqueue_local_lost :
    (crc32 : List ℕ → ℕ) (now task_timeout : ℕ) (fresh : JobManager) (disk : Disk)
    (before after : Loops) (c : Controller) (logs : Logs) (at : ℕ) (inputs : List JobInput)
    (id : String) {data' : SnapshotData} {c' : Controller}
    → ((x : Controller) → stored id x.job_manager ≡ true → stored id (after x).job_manager ≡ true)
    → contains id (map (λ j. j.id) inputs) ≡ true
    → enqueue_local before after c logs at inputs ≡ (c', none)
    → load true disk ≡ loaded data'
    → IsMap data'.jobs
    → lookup id data'.jobs ≡ none
    → (stored id c'.job_manager ≡ true)
      × ((lines : List WalLine)
          → stored id (recover crc32 now task_timeout fresh true disk lines).0 ≡ false)
unfolding enqueue_local
enqueue_local_lost crc32 now task_timeout fresh disk before after c logs at inputs id {data'} {c'}
      keeps among done l m absent =
    let kept = enqueue_jobs_stores (before c) logs at inputs id among in
    (
      ground (arith, done, keeps (enqueue_jobs (before c) logs at (map local_job inputs)).0, kept),
      λ lines. recover-stored crc32 now task_timeout id fresh disk lines {data' = data'} l m absent,
    )
