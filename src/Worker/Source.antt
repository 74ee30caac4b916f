-- ===== src/Worker/Source.antt =====
-- internal/worker/grpc_source.go: the jobs of a remote master. The calls of the gRPC client are
-- arguments, and none is a call that fails; decoding JSON is an argument too. An attempt and a timeout
-- are words in two's complement, and times are not negative.
pub mod Remote
use raft_recovery.Prelude.{
  ℕ, ◌*◌, Bool, true, false, Option, none, some, List, [], ◌∷◌, String, map, str_eq, ltb,
  if◌then◌else◌, int64, sign_extend,
}
use raft_recovery.Types.{Job, JobStatus, pending, in_flight, completed, dead, other}
use raft_recovery.Messages.{
  PbStatus, unspecified, pb_pending, pb_in_flight, pb_completed, pb_dead, PbJob, PollJobsRequest,
  AcknowledgeJobRequest, RegisterWorkerRequest, RegisterWorkerResponse, HeartbeatRequest,
  HeartbeatResponse,
}

pub record GrpcJobSource : Type 0 where
  pub worker_id : String
  pub worker_addr : String

unfoldable pub map_status_to_pb : JobStatus → PbStatus
map_status_to_pb pending = pb_pending
map_status_to_pb in_flight = pb_in_flight
map_status_to_pb completed = pb_completed
map_status_to_pb dead = pb_dead
map_status_to_pb (other s) = unspecified

unfoldable pub map_pb_status_to_type : PbStatus → JobStatus
map_pb_status_to_type pb_pending = pending
map_pb_status_to_type pb_in_flight = in_flight
map_pb_status_to_type pb_completed = completed
map_pb_status_to_type pb_dead = dead
map_pb_status_to_type unspecified = pending

-- The payload that `Poll` makes of the bytes: nil without bytes, empty if they cannot be decoded.
abbrev payload_of : (String → Option String) → String → String
payload_of decode bytes =
    if str_eq bytes "" then "null" else elim (decode bytes) [ none ↦ "{}" | some payload ↦ payload ]

unfoldable pub job_of : (String → Option String) → PbJob → Job
job_of decode pb_job = record {
  id = pb_job.id;
  payload = payload_of decode pb_job.payload;
  status = map_pb_status_to_type pb_job.status;
  attempt = sign_extend pb_job.attempt;
  timeout = int64 (pb_job.timeout_ms * 1000000);
  deadline = if ltb 0 pb_job.deadline_ms then some pb_job.deadline_ms else none;
  created_at = pb_job.created_at;
  updated_at = pb_job.updated_at;
  worker_id = pb_job.worker_id;
}

unfoldable pub poll :
    (String → Option String)
    → (PollJobsRequest → Option (List PbJob))
    → GrpcJobSource
    → ℕ
    → Option (List Job)
unfolding job_of
poll decode call source max_jobs =
    elim (call (record { worker_id = source.worker_id; max_jobs = max_jobs })) [
      | none ↦ none
      | some pb_jobs ↦ some (map (job_of decode) pb_jobs)
    ]

abbrev pub ack_request : GrpcJobSource → String → JobStatus → AcknowledgeJobRequest
ack_request source job_id status = record {
  job_id = job_id;
  worker_id = source.worker_id;
  status = map_status_to_pb status;
}

-- True when no error is returned.
unfoldable pub acknowledge :
    (AcknowledgeJobRequest → Option Bool) → GrpcJobSource → String → JobStatus → Bool
acknowledge call source job_id status = elim (call (ack_request source job_id status)) [
  | none ↦ false
  | some success ↦ success
]

abbrev pub register_request : GrpcJobSource → RegisterWorkerRequest
register_request source = record {
  node_id = source.worker_id;
  address = source.worker_addr;
  capacity = 10;
  tags = "default" ∷ [];
}

-- A master, as a heartbeat sees it: it answers, or fails, and goes on in a state.
module _ {S : Type 0} (beat : S → HeartbeatRequest → S × Option HeartbeatResponse)
    (enroll : S → RegisterWorkerRequest → S × Option RegisterWorkerResponse) where
  unfoldable pub register : S → GrpcJobSource → S × Bool
  register s source =
      let (s', resp) = enroll s (register_request source) in
      (s', elim resp [ none ↦ false | some answer ↦ answer.success ])

  unfoldable pub heartbeat : S → GrpcJobSource → ℕ → String → ℕ → S × Bool
  unfolding register
  heartbeat s source now node_id load =
      let (s', resp) =
        beat s (record { node_id = node_id; current_load = load; timestamp = now }) in
      elim resp [
        | none ↦ (s', false)
        | some answer ↦ if answer.re_register then register s' source else (s', true)
      ]
