-- ===== src/Controller/Commands.antt =====
-- internal/controller/controller.go: how `handleRaftCommand` reads the bytes of a command.
use raft_recovery.Prelude.{
  ◌≡◌, ap, sym, ◌∙◌, none, some, List, String, str_eq, eq_iff, arith, if◌then◌else◌,
}
use raft_recovery.Types.{Job, JobStatus}
use raft_recovery.Raft.Commands.Encoding.{
  Json, cmd_enqueue, cmd_ack, bytes, new_enqueue_command, new_ack_command,
}
use raft_recovery.Controller.Recover.{
  RaftCommand, enqueue_command, ack_command, unknown_command, undecodable,
}

unfoldable pub decode_command : Json → String → RaftCommand
decode_command json data' = elim (json.unmarshal_command data') [
  | none ↦ undecodable
  | some (type, payload) ↦
      if str_eq type cmd_enqueue
      then enqueue_command (json.unmarshal_jobs payload)
      else if str_eq type cmd_ack
      then ack_command ((json.unmarshal_ack payload).0) ((json.unmarshal_ack payload).1)
      else unknown_command
]

-- Reading the bytes of a command gives its type and its payload, for a payload that the encoder wrote
-- itself: such a text is compact already, so that it is not changed when it becomes a part of another.
pub record ReadsCommands (json : Json) : Type 0 where
  pub jobs_read :
      (jobs : List Job) (payload command : String)
      → json.marshal_jobs jobs ≡ some payload
      → json.marshal_command cmd_enqueue payload ≡ some command
      → json.unmarshal_command command ≡ some (cmd_enqueue, payload)
  pub ack_read :
      (id : String) (status : JobStatus) (payload command : String)
      → json.marshal_ack id status ≡ some payload
      → json.marshal_command cmd_ack payload ≡ some command
      → json.unmarshal_command command ≡ some (cmd_ack, payload)

pub decode-new_enqueue_command :
    (json : Json) (jobs : List Job) (payload command : String)
    → ReadsCommands json
    → json.marshal_jobs jobs ≡ some payload
    → json.unmarshal_jobs payload ≡ jobs
    → new_enqueue_command json jobs ≡ some command
    → decode_command json command ≡ enqueue_command jobs
unfolding decode_command new_enqueue_command
decode-new_enqueue_command json jobs payload command reads coded same e =
    let made = ap (λ p. json.marshal_command cmd_enqueue (bytes p)) (sym coded) ∙ e in
    let r = reads.jobs_read jobs payload command coded made in
    ground (arith, r, same, eq_iff cmd_enqueue cmd_enqueue)

pub decode-new_ack_command :
    (json : Json) (id : String) (status : JobStatus) (payload command : String)
    → ReadsCommands json
    → json.marshal_ack id status ≡ some payload
    → json.unmarshal_ack payload ≡ (id, status)
    → new_ack_command json id status ≡ some command
    → decode_command json command ≡ ack_command id status
unfolding decode_command new_ack_command
decode-new_ack_command json id status payload command reads coded same e =
    let made = ap (λ p. json.marshal_command cmd_ack (bytes p)) (sym coded) ∙ e in
    let r = reads.ack_read id status payload command coded made in
    ground (arith, r, same, eq_iff cmd_ack cmd_ack, eq_iff cmd_ack cmd_enqueue)
