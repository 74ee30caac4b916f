-- ===== src/Worker/Source/Remote/Tests.antt =====
-- internal/worker/grpc_source.go: a job and a heartbeat between a worker and its master.
use raft_recovery.Prelude.{◌<◌, ◌^◌, ◌-◌, arith, ◌%◌, ◌≡◌, ◌≢◌, ◌↔◌, refl, some}
use raft_recovery.Types.{Job, in_flight}
use raft_recovery.Server.Polling.{pb_job}
use raft_recovery.Worker.Source.{job_of}
use raft_recovery.Worker.Source.Remote.{IsKnown, job_of-pb_job_iff}

abbrev job : Job
job = record {
  id = "a";
  payload = "{}";
  status = in_flight;
  attempt = 1;
  timeout = 5000000;
  deadline = some 7;
  created_at = 1;
  updated_at = 2;
  worker_id = "";
}

full : job.payload ≢ ""
full e = cc

job_of-pb_job_iff_example :
    (job_of (λ text. some text) (pb_job "w" job) ≡ record job { worker_id = "w" }) ↔ (
      (job.attempt < 2 ^ 31)
      × (job.timeout % 1000000 ≡ 0)
      × (job.deadline ≢ some 0)
      × IsKnown job.status)
job_of-pb_job_iff_example =
    job_of-pb_job_iff (λ text. some text) "w" job refl full (omega arith) (omega arith)

-- An attempt of 2 ^ 31 comes to the worker as a negative number.
negative :
    (job_of (λ text. some text) (pb_job "w" (record job { attempt = 2 ^ 31 }))).attempt
    ≡ 2 ^ 64 - 2 ^ 31
unfolding job_of pb_job
negative = refl
