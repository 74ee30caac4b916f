-- ===== src/Cli/Enqueueing/Tests.antt =====
-- internal/cli/cli.go: one job, submitted on an empty store.
use raft_recovery.Prelude.{ℕ, ◌≡◌, refl, true, false, none, List, [], ◌∷◌, contains, lookup}
use raft_recovery.JobManager.{new_job_manager, enqueue}
use raft_recovery.Wal.Writer.{WalLine}
use raft_recovery.Snapshot.Manager.{Disk, load}
use raft_recovery.Controller.Core.{
  Controller, new_controller, enqueue_jobs, enqueue_all, log_enqueues, append,
}
use raft_recovery.Controller.Recover.{recover}
use raft_recovery.Cli.{JobInput, Loops, enqueue_local}
use raft_recovery.Cli.Enqueueing.{stored, enqueue_local_lost}

abbrev constant : List ℕ → ℕ
constant ns = 7

abbrev started : Controller
started = new_controller (record { task_timeout = 5; max_retry = 3 })

abbrev inputs : List JobInput
inputs = record { id = "a"; payload = "{}"; timeout_ms = 5 } ∷ []

abbrev disk : Disk
disk = record { file = none; temp = none }

abbrev idle : Loops
idle c = c

abbrev submitted : Controller
submitted = (enqueue_local idle idle started (λ id. true) 9 inputs).0

enqueue_local_lost_example :
    (stored "a" submitted.job_manager ≡ true)
    × ((lines : List WalLine)
        → stored "a" (recover constant 20 5 new_job_manager true disk lines).0 ≡ false)
unfolding enqueue_local enqueue_jobs log_enqueues enqueue_all append enqueue new_controller
    new_job_manager contains lookup load
enqueue_local_lost_example =
    enqueue_local_lost constant 20 5 new_job_manager disk idle idle started (λ id. true) 9 inputs
      "a" {c' = submitted} (λ x h. h) refl refl refl tt refl
