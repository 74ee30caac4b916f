-- ===== src/Raft/Commands/Encoding.antt =====
-- internal/raft/commands.go: the commands as the bytes that the log holds. The calls of Go's JSON encoder
-- are arguments: `none` is an error, and what a failed `Unmarshal` leaves is a value all the same.
use raft_recovery.Prelude.{Option, none, some, List, String}
use raft_recovery.Types.{Job, JobStatus}

pub record Json : Type 0 where
  pub marshal_jobs : List Job → Option String
  pub unmarshal_jobs : String → List Job
  pub marshal_ack : String → JobStatus → Option String
  pub unmarshal_ack : String → String × JobStatus
  pub marshal_command : String → String → Option String
  pub unmarshal_command : String → Option (String × String)

abbrev pub cmd_enqueue : String
cmd_enqueue = "ENQUEUE"

abbrev pub cmd_ack : String
cmd_ack = "ACK"

-- The error of the payload's encoding is ignored, and its bytes are then empty.
abbrev pub bytes : Option String → String
bytes none = ""
bytes (some b) = b

unfoldable pub new_enqueue_command : Json → List Job → Option String
new_enqueue_command json jobs = json.marshal_command cmd_enqueue (bytes (json.marshal_jobs jobs))

unfoldable pub new_ack_command : Json → String → JobStatus → Option String
new_ack_command json id status = json.marshal_command cmd_ack (bytes (json.marshal_ack id status))
