-- ===== src/Server/Polling.antt =====
-- internal/server/server.go: `PollJobs`. A payload is its JSON text, which Marshal writes.
use raft_recovery.Prelude.{ℕ, ◌/◌, Option, none, some, List, String, map, int32}
use raft_recovery.Types.{Job}
use raft_recovery.Messages.{PbJob, PollJobsRequest}
use raft_recovery.JobManager.{JobManager, get_job}
use raft_recovery.Controller.Core.{Logs}
use raft_recovery.Controller.Dispatch.{Clock, pool_closed, polled, poll}
use raft_recovery.Server.Jobs.{Server, map_status_to_pb}

-- Milliseconds are a million nanoseconds, in a timeout that is not negative; no deadline is 0.
unfoldable pub pb_job : String → Job → PbJob
pb_job worker job = record {
  id = job.id;
  payload = job.payload;
  status = map_status_to_pb job.status;
  attempt = int32 job.attempt;
  timeout_ms = job.timeout / 1000000;
  deadline_ms = elim job.deadline [ none ↦ 0 | some deadline ↦ deadline ];
  created_at = job.created_at;
  updated_at = job.updated_at;
  worker_id = worker;
}

-- What a pointer that `Poll` returned shows: the job of the manager's map.
abbrev pub seen : JobManager → Job → Job
seen jm job = elim (get_job jm job.id) [ none ↦ job | some stored ↦ stored ]

-- `none` is the error of a stopped controller.
unfoldable pub poll_jobs :
    Server → Logs → Clock → ℕ → PollJobsRequest → Server × Option (List PbJob)
unfolding pb_job
poll_jobs s logs clock start req =
    let (c, answer) = poll s.controller logs clock start req.max_jobs in
    (
      record s { controller = c },
      elim answer [
        | pool_closed ↦ none
        | polled jobs ↦ some (map (λ job. pb_job req.worker_id (seen c.job_manager job)) jobs)
      ],
    )
