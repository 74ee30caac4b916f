-- ===== src/Messages.antt =====
-- api/proto/v1/service.proto: the messages of the gRPC service. Numbers are as in the model of Go:
-- they do not wrap, and a field of Raft that may be -1 is an integer.
use raft_recovery.Prelude.{ℕ, Bool, List, String, ℤ}

pub data PbStatus : Type 0 where
  unspecified pb_pending pb_in_flight pb_completed pb_dead : PbStatus

pub record PbJob : Type 0 where
  pub id : String
  pub payload : String
  pub status : PbStatus
  pub attempt : ℕ
  pub timeout_ms : ℕ
  pub deadline_ms : ℕ
  pub created_at : ℕ
  pub updated_at : ℕ
  pub worker_id : String

pub record PollJobsRequest : Type 0 where
  pub worker_id : String
  pub max_jobs : ℕ

pub record AcknowledgeJobRequest : Type 0 where
  pub job_id : String
  pub worker_id : String
  pub status : PbStatus

pub record RegisterWorkerRequest : Type 0 where
  pub node_id : String
  pub address : String
  pub capacity : ℕ
  pub tags : List String

pub record RegisterWorkerResponse : Type 0 where
  pub success : Bool
  pub lease_duration_ms : ℕ

pub record HeartbeatRequest : Type 0 where
  pub node_id : String
  pub current_load : ℕ
  pub timestamp : ℕ

pub record HeartbeatResponse : Type 0 where
  pub acknowledged : Bool
  pub re_register : Bool

pub record RequestVoteRequest : Type 0 where
  pub term : ℕ
  pub candidate_id : String
  pub last_log_index : ℕ
  pub last_log_term : ℕ

pub record RequestVoteResponse : Type 0 where
  pub term : ℕ
  pub vote_granted : Bool

pub record PbLogEntry : Type 0 where
  pub term : ℕ
  pub index : ℕ
  pub command : String

pub record AppendEntriesRequest : Type 0 where
  pub term : ℕ
  pub leader_id : String
  pub prev_log_index : ℤ
  pub prev_log_term : ℕ
  pub entries : List PbLogEntry
  pub leader_commit : ℕ

pub record AppendEntriesResponse : Type 0 where
  pub term : ℕ
  pub success : Bool
