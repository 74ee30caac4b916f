-- ===== src/Server/Jobs/Tests.antt =====
-- internal/server/server.go: a job for the leader, applied on another node.
use raft_recovery.Prelude.{
  ◌≡◌, refl, true, none, some, [], ◌∷◌, ◌++◌, str_eq, eq_iff, arith, lookup, if◌then◌else◌, ◌&&◌,
}
use raft_recovery.Types.{Job, pending}
use raft_recovery.JobManager.{new_job_manager}
use raft_recovery.Controller.Core.{new_controller}
use raft_recovery.Controller.Commands.{decode_command, ReadsCommands}
use raft_recovery.Controller.Starting.{apply_round}
use raft_recovery.Raft.Log.{LogEntry, new_memory_log_store, last_index, store_log, store_logs}
use raft_recovery.Raft.Node.{Raft, leader, new_raft, broadcast_heartbeats}
use raft_recovery.Raft.Commands.{propose}
use raft_recovery.Raft.Commands.Encoding.{Json, new_enqueue_command}
use raft_recovery.Server.Jobs.{Server, SubmitJobRequest, submitted, job_of, submit_job}
use raft_recovery.Server.Jobs.Replicated.{submit_job_replicated}

abbrev request : SubmitJobRequest
request = record { job_id = "a"; payload = "{}"; payload_valid = true; timeout_ms = 5 }

abbrev job : Job
job = record {
  id = "a";
  payload = "{}";
  status = pending;
  attempt = 0;
  timeout = 5000000;
  deadline = none;
  created_at = 1;
  updated_at = 1;
  worker_id = "";
}

-- An encoder that knows the job, and one command.
abbrev json : Json
json = record {
  marshal_jobs = λ jobs. some "jobs";
  unmarshal_jobs = λ payload. job ∷ [];
  marshal_ack = λ id status. none;
  unmarshal_ack = λ payload. ("", pending);
  marshal_command = λ type payload.
      if str_eq type "ENQUEUE" && str_eq payload "jobs" then some "command" else none;
  unmarshal_command = λ command. some ("ENQUEUE", "jobs");
}

json-ReadsCommands : ReadsCommands json
json-ReadsCommands = record {
  jobs_read = λ jobs payload command coded e.
      ground (arith, eq_iff "ENQUEUE" "ENQUEUE", eq_iff payload "jobs");
  ack_read = λ id status payload command coded e. cc;
}

abbrev node : Raft
node = record (new_raft (record { id = "n1"; peers = "n1" ∷ "n2" ∷ [] }) new_memory_log_store) {
  state = leader;
}

abbrev server : Server
server = record {
  controller = new_controller (record { task_timeout = 5; max_retry = 3 });
  raft_node = some node;
}

abbrev after : Server
after = record server {
  raft_node = some (record node {
    log_store = node.log_store ++ record { term = 0; index = 1; command = "command" } ∷ [];
  });
}

answers :
    submit_job (new_enqueue_command json) server (λ id. true) 1 "g" request
    ≡ some (after, broadcast_heartbeats node, submitted "a")
unfolding submit_job job_of new_enqueue_command propose store_log store_logs last_index new_raft
    new_memory_log_store
answers = refl

submit_job_replicated_example :
    (rf' : Raft) × (entry : LogEntry) × (job.id
      ≡ (if str_eq request.job_id "" then "g" else request.job_id))
    × (after.raft_node ≡ some rf')
    × (rf'.log_store ≡ node.log_store ++ entry ∷ [])
    × (lookup "a"
          (apply_round
            (decode_command json)
            new_job_manager
            7
            (record { command_valid = true; command = entry.command; command_index = 1 })).jobs
        ≡ some (record job { status = pending; created_at = 7; updated_at = 7 }))
unfolding new_job_manager lookup
submit_job_replicated_example =
    submit_job_replicated json server node (λ id. true) 1 "g" request {s' = after}
      {effects = broadcast_heartbeats node} {id = "a"} new_job_manager 7 1 "jobs" json-ReadsCommands
      refl refl refl answers refl
