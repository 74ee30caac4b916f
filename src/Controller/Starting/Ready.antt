-- ===== src/Controller/Starting/Ready.antt =====
-- internal/controller/controller.go: what holds when `Start` has succeeded, and what the messages of a node
-- do to the controller.
use raft_recovery.Prelude.{
  ℕ, ◌+◌, ◌≡◌, refl, sym, ap, ◌∙◌, Bool, true, false, none, List, [], ◌∷◌, ◌++◌, String, arith,
  eq_iff, lookup, lookup-insert, contains, length, length-append, replicate, length-replicate,
  contains-add_key, contains-delete_key, Option-cases, Bool-cases, inl, inr, if◌then◌else◌, ◌&&◌,
  not,
}
use raft_recovery.Types.{SnapshotData, is_in_flight}
use raft_recovery.JobManager.{
  JobManager, mark_in_flight, mark_completed, requeue, mark_dead, restore, get_all_in_flight_jobs,
}
use raft_recovery.JobManager.Indexes.{has}
use raft_recovery.JobManager.Recovery.{IsMap, restore-IsExact}
use raft_recovery.Wal.Event.{Event, EventType, ack, retry, timeout, dead, other, verify_checksum}
use raft_recovery.Wal.Event
use raft_recovery.Wal.Writer.{WalLine, torn, written, replay}
use raft_recovery.Snapshot.Manager.{Disk, Loaded, loaded, load_failed, load}
use raft_recovery.Worker.Pool
use raft_recovery.Controller.Recover.{recover, replay_handler, apply_event}
use raft_recovery.Controller.Recover.Replay.{requeue_all_lands}
use raft_recovery.Controller.Starting.{
  Coordinator, num_dispatchers, started, start, start_loops, dispatch_loop, result_loop,
  timeout_loop, snapshot_loop, apply_loop,
}

-- The in-flight index says of one identifier what its status says.
abbrev IsFlown : String → JobManager → Type 0
IsFlown k jm = contains k jm.in_flight ≡ has is_in_flight (lookup k jm.jobs)

apply_event-IsFlown :
    (now task_timeout : ℕ) (jm : JobManager) (k : String) (type : EventType) (id : String)
    → IsFlown k jm
    → IsFlown k (apply_event now task_timeout jm type id).0
unfolding apply_event mark_in_flight mark_completed requeue mark_dead
apply_event-IsFlown now task_timeout jm k Event.enqueue id v = v
apply_event-IsFlown now task_timeout jm k Event.dispatch id v =
    grind (arith, eq_iff id k, lookup-insert, contains-add_key id k jm.in_flight)
apply_event-IsFlown now task_timeout jm k ack id v =
    grind (arith, eq_iff id k, lookup-insert, contains-delete_key id k jm.in_flight)
apply_event-IsFlown now task_timeout jm k retry id v =
    grind (arith, eq_iff id k, lookup-insert, contains-delete_key id k jm.in_flight)
apply_event-IsFlown now task_timeout jm k timeout id v =
    grind (arith, eq_iff id k, lookup-insert, contains-delete_key id k jm.in_flight)
apply_event-IsFlown now task_timeout jm k dead id v =
    grind (arith, eq_iff id k, lookup-insert, contains-delete_key id k jm.in_flight)
apply_event-IsFlown now task_timeout jm k (other t) id v = v

none_left :
    (k : String) (jm : JobManager)
    → IsFlown k jm
    → (has is_in_flight (lookup k jm.jobs) && not (contains k (get_all_in_flight_jobs jm))) ≡ false
unfolding get_all_in_flight_jobs
none_left k jm v = ground arith

module _ (crc32 : List ℕ → ℕ) (now task_timeout : ℕ) (k : String) where
  replay-IsFlown :
      (jm : JobManager) (lines : List WalLine)
      → IsFlown k jm
      → IsFlown k (replay crc32 (replay_handler now task_timeout) jm lines).0
  unfolding replay replay_handler
  replay-IsFlown jm [] v = v
  replay-IsFlown jm (torn ∷ lines) v = v
  replay-IsFlown jm (written e ∷ lines) v =
      let done = apply_event now task_timeout jm e.type e.job_id in
      let v' = apply_event-IsFlown now task_timeout jm k e.type e.job_id v in
      let rest = replay-IsFlown done.0 lines v' in
      elim (Bool-cases (verify_checksum crc32 e)) [
        | inr bad ↦ rw bad v
        | inl good ↦ elim (Option-cases done.1) [
          | inl ok ↦ rw (good, ok, replay) rest
          | inr (error, refused) ↦ rw (good, refused, replay) v'
        ]
      ]

  recover-grounded :
      (jm : JobManager) (readable : Bool) (disk : Disk) (lines : List WalLine)
      (data' : SnapshotData)
      → load readable disk ≡ loaded data'
      → IsMap data'.jobs
      → (recover crc32 now task_timeout jm readable disk lines).1 ≡ none
      → has is_in_flight (lookup k (recover crc32 now task_timeout jm readable disk lines).0.jobs)
        ≡ false
  unfolding recover
  recover-grounded jm readable disk lines data' l m =
      let flown =
        replay-IsFlown (restore jm data') lines (restore-IsExact jm data' k m).0.in_flight_exact in
      let replayed = replay crc32 (replay_handler now task_timeout) (restore jm data') lines in
      elim (Option-cases replayed.1) [
        | inr (e, failed) ↦ rw (l, recover, failed) (λ ok. cc)
        | inl good ↦
            rw (l, recover, good)
              (λ ok.
                requeue_all_lands replayed.0 now (get_all_in_flight_jobs replayed.0) k
                ∙ none_left k replayed.0 flown)
      ]

length-start_loops :
    (c : Coordinator)
    → (start_loops c).waiting + length c.loops ≡ c.waiting + length (start_loops c).loops
unfolding start_loops
length-start_loops c =
    let dispatchers = replicate (num_dispatchers c.settings) dispatch_loop in
    let others = result_loop ∷ timeout_loop ∷ snapshot_loop ∷ apply_loop ∷ [] in
    let all : length (start_loops c).loops ≡ length ((c.loops ++ dispatchers) ++ others) = refl in
    let counts : (start_loops c).waiting ≡ c.waiting + (3 + num_dispatchers c.settings) + 1 =
      refl in
    omega (
      arith,
      all,
      counts,
      length-append (c.loops ++ dispatchers) others,
      length-append c.loops dispatchers,
      length-replicate (num_dispatchers c.settings) dispatch_loop,
    )

recover_loads :
    (crc32 : List ℕ → ℕ) (now task_timeout : ℕ) (jm : JobManager) (readable : Bool) (disk : Disk)
    (lines : List WalLine)
    → (recover crc32 now task_timeout jm readable disk lines).1 ≡ none
    → (data' : SnapshotData) × (load readable disk ≡ loaded data')
unfolding recover
recover_loads crc32 now task_timeout jm readable disk lines = go (load readable disk) refl
  where
    go :
        (l : Loaded)
        → load readable disk ≡ l
        → (recover crc32 now task_timeout jm readable disk lines).1 ≡ none
        → (data' : SnapshotData) × (load readable disk ≡ loaded data')
    go (loaded data') h = λ ok. (data', h)
    go (load_failed error) h = rw (h, recover) (λ ok. cc)

started_pool :
    (p : Pool.Pool) (count : ℕ)
    → (Pool.start p count).1 ≡ none
    → (Pool.start p count).0 ≡ record p { workers = p.workers + count; started = true }
unfolding Pool.start
started_pool p count new = ground arith

-- What a Start that succeeds is made of.
start_parts :
    (crc32 : List ℕ → ℕ) (now : ℕ) (c : Coordinator) (readable : Bool) (disk : Disk)
    (lines : List WalLine) (c' : Coordinator)
    → start crc32 now c readable disk lines ≡ (c', started)
    → let r = recover crc32 now c.settings.task_timeout c.job_manager readable disk lines in
      (r.1 ≡ none)
      × (c'
          ≡ start_loops (record c {
            job_manager = r.0;
            pool = (Pool.start c.pool c.settings.worker_count).0;
          }))
      × ((Pool.start c.pool c.settings.worker_count).1 ≡ none)
unfolding start
start_parts crc32 now c readable disk lines c' =
    let r = recover crc32 now c.settings.task_timeout c.job_manager readable disk lines in
    elim (Option-cases r.1) [
      | inr (e, failed) ↦ rw (failed, start) (λ h. cc)
      | inl ok ↦ elim (Option-cases (Pool.start c.pool c.settings.worker_count).1) [
        | inr (e, before) ↦ rw (ok, before, start) (λ h. cc)
        | inl new ↦ rw (ok, new, start) (λ h. (refl, sym (ap (λ x. x.0) h), refl))
      ]
    ]

-- On a readable or unreadable snapshot file whose content, if it loads, has each key once, and on any
-- records of the log: a `Start` that succeeds leaves no job in flight, on a pool that has started with as
-- many workers more as the settings say and took no other call; it starts four dispatchers or, where the
-- settings turn them off, none, with one loop each for results, timeouts, snapshots and messages; and the
-- wait group counts each of these goroutines.
pub start_ready :
    (crc32 : List ℕ → ℕ) (now : ℕ) (c : Coordinator) (readable : Bool) (disk : Disk)
    (lines : List WalLine) {c' : Coordinator}
    → ((data' : SnapshotData) → load readable disk ≡ loaded data' → IsMap data'.jobs)
    → start crc32 now c readable disk lines ≡ (c', started)
    → ((k : String) → has is_in_flight (lookup k c'.job_manager.jobs) ≡ false)
      × (c'.pool
          ≡ record (c.pool) { workers = c.pool.workers + c.settings.worker_count; started = true })
      × (c'.loops
          ≡ c.loops
            ++ replicate (if c.settings.disable_dispatch_loop then 0 else 4) dispatch_loop
            ++ result_loop ∷ timeout_loop ∷ snapshot_loop ∷ apply_loop ∷ [])
      × (c'.waiting + length c.loops ≡ c.waiting + length c'.loops)
start_ready crc32 now c readable disk lines {c'} m e =
    let (ok, at, new) = start_parts crc32 now c readable disk lines c' e in
    let r = recover crc32 now c.settings.task_timeout c.job_manager readable disk lines in
    let b : Coordinator = record c {
      job_manager = r.0;
      pool = (Pool.start c.pool c.settings.worker_count).0;
    } in
    let (data', l) =
      recover_loads crc32 now c.settings.task_timeout c.job_manager readable disk lines ok in
    (
      λ k.
          ap (λ (x : Coordinator). has is_in_flight (lookup k x.job_manager.jobs)) at
          ∙ unfold start_loops in
            recover-grounded crc32 now c.settings.task_timeout k c.job_manager readable disk lines
              data' l (m data' l) ok,
      ap (λ (x : Coordinator). x.pool) at
          ∙ unfold start_loops in started_pool c.pool c.settings.worker_count new,
      ap (λ (x : Coordinator). x.loops) at ∙ unfold start_loops in refl,
      ap (λ (x : Coordinator). x.waiting + length c.loops) at
          ∙ length-start_loops b
          ∙ ap (λ (x : Coordinator). c.waiting + length x.loops) (sym at),
    )
