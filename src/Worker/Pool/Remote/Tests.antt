-- ===== src/Worker/Pool/Remote/Tests.antt =====
-- internal/worker: a job that fails once on a remote worker.
use raft_recovery.Prelude.{
  ◌≡◌, inl, refl, true, false, none, some, [], ◌∷◌, ◌++◌, lookup, contains, str_eq, eq_iff, arith,
  if◌then◌else◌, ◌&&◌,
}
use raft_recovery.Types.{Job, in_flight, dead, is_dead}
use raft_recovery.Messages.{pb_dead}
use raft_recovery.JobManager.{JobManager}
use raft_recovery.JobManager.Indexes.{has, IsIndexed}
use raft_recovery.Raft.Log.{LogEntry, new_memory_log_store, last_index, store_log, store_logs}
use raft_recovery.Raft.Node.{Raft, leader, new_raft, broadcast_heartbeats}
use raft_recovery.Raft.Commands.{propose}
use raft_recovery.Raft.Commands.Encoding.{Json, new_ack_command}
use raft_recovery.Controller.Core.{new_controller}
use raft_recovery.Controller.Commands.{decode_command, ReadsCommands}
use raft_recovery.Controller.Starting.{apply_round}
use raft_recovery.Server.Jobs.{Server, acknowledge_job, map_pb_status_to_type}
use raft_recovery.Worker.Source.{GrpcJobSource, map_status_to_pb}
use raft_recovery.Worker.Pool.{Result, deadline_exceeded}
use raft_recovery.Worker.Pool.Remote.Failures.{remote_failure_buries}

abbrev node : Raft
node = record (new_raft (record { id = "n1"; peers = "n1" ∷ "n2" ∷ [] }) new_memory_log_store) {
  state = leader;
}

abbrev server : Server
server = record {
  controller = new_controller (record { task_timeout = 5; max_retry = 3 });
  raft_node = some node;
}

abbrev job : Job
job = record {
  id = "b";
  payload = "{}";
  status = in_flight;
  attempt = 0;
  timeout = 5;
  deadline = none;
  created_at = 0;
  updated_at = 0;
  worker_id = "";
}

abbrev busy : JobManager
busy = record {
  jobs = ("b", job) ∷ [];
  queue = [];
  in_flight = "b" ∷ [];
  completed = [];
  dead = [];
  last_applied_index = 0;
}

busy-IsIndexed : IsIndexed busy "b"
unfolding lookup contains
busy-IsIndexed = record {
  in_flight_exact = refl;
  dead_exact = refl;
  completed_kept = inl refl;
  completed_only = inl refl;
  queue_known = inl refl;
}

abbrev source : GrpcJobSource
source = record { worker_id = "w"; worker_addr = "host:1" }

abbrev late : Result
late = record { job_id = "b"; success = false; error = some deadline_exceeded; duration = 5 }

-- An encoder that knows the death of the job, and one command.
abbrev json : Json
json = record {
  marshal_jobs = λ jobs. none;
  unmarshal_jobs = λ payload. [];
  marshal_ack = λ id status. some "b is dead";
  unmarshal_ack = λ payload. ("b", dead);
  marshal_command = λ type payload.
      if str_eq type "ACK" && str_eq payload "b is dead" then some "command" else none;
  unmarshal_command = λ command. some ("ACK", "b is dead");
}

json-ReadsCommands : ReadsCommands json
json-ReadsCommands = record {
  jobs_read = λ jobs payload command coded e. cc;
  ack_read = λ id status payload command coded e.
      ground (arith, eq_iff "ACK" "ACK", eq_iff payload "b is dead");
}

abbrev after : Server
after = record server {
  raft_node = some (record node {
    log_store = node.log_store ++ record { term = 0; index = 1; command = "command" } ∷ [];
  });
}

answers :
    acknowledge_job (new_ack_command json) server (λ id. true) 9 "b" pb_dead
    ≡ some (after, broadcast_heartbeats node, true)
unfolding acknowledge_job map_pb_status_to_type new_ack_command propose store_log store_logs
    last_index new_raft new_memory_log_store
answers = refl

remote_failure_buries_example :
    (rf' : Raft) × (entry : LogEntry) × (after.raft_node ≡ some rf')
    × (rf'.log_store ≡ node.log_store ++ entry ∷ [])
    × (has is_dead (
          lookup "b"
            (apply_round
              (decode_command json)
              busy
              10
              (record { command_valid = true; command = entry.command; command_index = 1 })).jobs)
        ≡ true)
unfolding lookup map_status_to_pb
remote_failure_buries_example =
    remote_failure_buries json server node (λ id. true) source late 9 {s' = after}
      {effects = broadcast_heartbeats node} busy 10 1 "b is dead" {job = job} json-ReadsCommands
      refl refl refl refl answers busy-IsIndexed refl refl refl
