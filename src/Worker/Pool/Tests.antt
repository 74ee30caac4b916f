-- ===== src/Worker/Pool/Tests.antt =====
-- internal/worker/worker_pool.go: a pool of two workers with room for one task and one result.
use raft_recovery.Prelude.{◌≡◌, refl, true, false, List, [], ◌∷◌}
use raft_recovery.Worker.Pool.{Task, new_pool, start, submit, work_round, receive_result, stop}
use raft_recovery.Worker.Pool.Lifecycle.{Op, starts, submits, works, receives, stops, run, step}

abbrev task : Task
task = record { id = "a"; payload = "{}"; timeout = 5 }

abbrev day : List Op
day = starts 2 ∷ submits task ∷ submits task ∷ works 3 true ∷ stops ∷ receives false ∷ []

day_stops : (run (new_pool 1) day).stopped ≡ true
unfolding run step start submit work_round receive_result stop new_pool
day_stops = refl
