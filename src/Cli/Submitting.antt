-- ===== src/Cli/Submitting.antt =====
-- internal/cli/cli.go: what becomes of submitted jobs.
use raft_recovery.Prelude.{
  ℕ, ◌+◌, ◌≡◌, refl, Option, none, some, List, [], ◌∷◌, String, if◌then◌else◌, length, arith,
  lookup, insert,
}
use raft_recovery.Types.{Job}
use raft_recovery.JobManager.{JobManager, enqueue}
use raft_recovery.Controller.Core.{
  Controller, Logs, enqueue_jobs, enqueue_all, log_enqueues, append,
}
use raft_recovery.Server.Jobs.{Server, SubmitJobRequest, SubmitJobResponse, submit_job, job_of}
use raft_recovery.Cli.{JobInput, submit_request, is_submitted, submit_all}

length-insert :
    {V : Type 0} (k : String) (v : V) (m : List (String × V))
    → length (insert k v m) ≡ (elim (lookup k m) [ none ↦ length m + 1 | some old ↦ length m ])
unfolding insert lookup
length-insert k v [] = refl
length-insert k v ((first, old) ∷ m) = ground (arith, length-insert k v m)

enqueue_counts :
    (jm : JobManager) (now : ℕ) (job : Job)
    → let (jm', error) = enqueue jm now job in
      length jm'.jobs ≡ (elim error [ none ↦ length jm.jobs + 1 | some e ↦ length jm.jobs ])
unfolding enqueue
enqueue_counts jm now job = grind (arith, length-insert)

enqueue_jobs_counts :
    (c : Controller) (logs : Logs) (now : ℕ) (job : Job)
    → let (c', error) = enqueue_jobs c logs now (job ∷ []) in
      length c'.job_manager.jobs
      ≡ (elim error [ none ↦ length c.job_manager.jobs + 1 | some e ↦ length c.job_manager.jobs ])
unfolding enqueue_jobs log_enqueues enqueue_all append
enqueue_jobs_counts c logs now job = ground (arith, enqueue_counts c.job_manager now job)

-- The calls of a client on a server: each at its own time, with the identifier that this generates.
module _ (encode : List Job → Option String) (logs : Logs) (clock : Server → ℕ)
    (generated : Server → String) where
  abbrev pub serve : Server → SubmitJobRequest → Server × Option SubmitJobResponse
  serve s req = elim (submit_job encode s logs (clock s) (generated s) req) [
    | none ↦ (s, none)
    | some (s', effects, resp) ↦ (s', some resp)
  ]

  abbrev pub count : Server → ℕ
  count s = length s.controller.job_manager.jobs

  serve_counts :
      (s : Server) (j : JobInput)
      → s.raft_node ≡ none
      → let (s', resp) = serve s (submit_request j) in
        (s'.raft_node ≡ none) × (count s' ≡ (if is_submitted resp then count s + 1 else count s))
  unfolding submit_job
  serve_counts s j n =
      let job = job_of (submit_request j) (generated s) (clock s) in
      ground (arith, n, enqueue_jobs_counts s.controller logs (clock s) job)

  -- Submitting the jobs of a file to a server without a node of Raft: the number of successes that is
  -- reported is the number of jobs that the server has more than before.
  pub submit_all_counts :
      (s : Server) (inputs : List JobInput)
      → s.raft_node ≡ none
      → let (s', success_count) = submit_all serve s inputs in count s' ≡ count s + success_count
  unfolding submit_all
  submit_all_counts s [] n = omega arith
  submit_all_counts s (j ∷ js) n =
      let (n', one) = serve_counts s j n in
      ground (arith, one, submit_all_counts ((serve s (submit_request j)).0) js n')
