-- ===== src/Server/Jobs.antt =====
-- internal/server/server.go: the calls of clients and workers. Requests are as protobuf has them; the
-- encoding of commands for the log is Go's JSON, an argument that may fail.
pub mod Replicated
mod Tests
use raft_recovery.Prelude.{
  ℕ, ◌*◌, Bool, true, false, Option, none, some, List, [], ◌∷◌, String, str_eq, int64,
  if◌then◌else◌,
}
use raft_recovery.Types.{Job, JobStatus, pending, in_flight, completed, dead, other, is_completed}
use raft_recovery.Messages.{PbStatus, unspecified, pb_pending, pb_in_flight, pb_completed, pb_dead}
use raft_recovery.Raft.Node.{Raft, After, Effect}
use raft_recovery.Raft.Commands.{Proposal, propose}
use raft_recovery.Controller.Core.{Controller, Logs, enqueue_jobs}
use raft_recovery.Controller.Dispatch.{acknowledge}

unfoldable pub map_status_to_pb : JobStatus → PbStatus
map_status_to_pb pending = pb_pending
map_status_to_pb in_flight = pb_in_flight
map_status_to_pb completed = pb_completed
map_status_to_pb dead = pb_dead
map_status_to_pb (other s) = unspecified

unfoldable pub map_pb_status_to_type : PbStatus → JobStatus
map_pb_status_to_type pb_pending = pending
map_pb_status_to_type pb_in_flight = in_flight
map_pb_status_to_type pb_completed = completed
map_pb_status_to_type pb_dead = dead
map_pb_status_to_type unspecified = pending

pub record Server : Type 0 where
  pub controller : Controller
  pub raft_node : Option Raft

pub record SubmitJobRequest : Type 0 where
  pub job_id : String
  pub payload : String
  pub payload_valid : Bool
  pub timeout_ms : ℕ

pub data SubmitJobResponse : Type 0 where
  submitted : String → SubmitJobResponse
  invalid_payload encode_failed not_the_leader enqueue_failed : SubmitJobResponse

-- The job that `SubmitJob` makes of a request; `generated` is the identifier from the clock.
unfoldable pub job_of : SubmitJobRequest → String → ℕ → Job
job_of request generated now = record {
  id = if str_eq request.job_id "" then generated else request.job_id;
  payload = request.payload;
  status = pending;
  attempt = 0;
  timeout = int64 (request.timeout_ms * 1000000);
  deadline = none;
  created_at = now;
  updated_at = now;
  worker_id = "";
}

-- What a call on the node's log leaves: the server, the effects of the node, and the response.
abbrev pub Served : Type 0 → Type 0
Served R = Option (Server × List Effect × R)

abbrev pub proposed {ℓ} :
    {R : Type ℓ} → Server → R → R → Option (After × Proposal) → Option (Server × List Effect × R)
proposed s accepted refused none = none
proposed s accepted refused (some (after, proposal)) = some (
  record s { raft_node = some after.node },
  after.effects,
  if proposal.accepted then accepted else refused,
)

-- `none` is a panic of the node's log.
unfoldable pub submit_job :
    (List Job → Option String)
    → Server
    → Logs
    → ℕ
    → String
    → SubmitJobRequest
    → Served SubmitJobResponse
unfolding job_of
submit_job encode s logs now generated request =
    let job = job_of request generated now in
    if request.payload_valid
    then elim s.raft_node [
      | some rf ↦ elim (encode (job ∷ [])) [
        | none ↦ some (s, [], encode_failed)
        | some command ↦ proposed s (submitted job.id) not_the_leader (propose rf command)
      ]
      | none ↦
          let (c, error) = enqueue_jobs s.controller logs now (job ∷ []) in
          some (
            record s { controller = c },
            [],
            elim error [ none ↦ submitted job.id | some e ↦ enqueue_failed ],
          )
    ]
    else some (s, [], invalid_payload)

unfoldable pub acknowledge_job :
    (String → JobStatus → Option String) → Server → Logs → ℕ → String → PbStatus → Served Bool
acknowledge_job encode s logs now id pb_status =
    let status = map_pb_status_to_type pb_status in
    elim s.raft_node [
      | some rf ↦ elim (encode id status) [
        | none ↦ some (s, [], false)
        | some command ↦ proposed s true false (propose rf command)
      ]
      | none ↦
          let (c, done) =
            acknowledge s.controller logs now
              (some (record { job_id = id; success = is_completed status })) in
          some (record s { controller = c }, [], done)
    ]
