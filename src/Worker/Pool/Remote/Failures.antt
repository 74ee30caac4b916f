-- ===== src/Worker/Pool/Remote/Failures.antt =====
-- internal/worker and internal/server: the way of a failed task through a cluster.
use raft_recovery.Prelude.{
  ℕ, ◌≡◌, refl, sym, ap, ◌∙◌, Bool, true, false, Option, some, List, [], ◌∷◌, ◌++◌, String, arith,
  eq_iff, lookup, lookup-insert, Option-cases, Bool-cases, inl, inr,
}
use mathlib.Core.Option.{some-injective}
use raft_recovery.Types.{Job, JobStatus, in_flight, dead, is_dead}
use raft_recovery.Messages.{PbStatus}
use raft_recovery.JobManager
use raft_recovery.JobManager.{JobManager, mark_dead, set_last_applied_index}
use raft_recovery.JobManager.Indexes.{has, IsIndexed}
use raft_recovery.Raft.Log.{LogEntry}
use raft_recovery.Raft.Node.{Raft, After, Effect}
use raft_recovery.Raft.Commands.{Proposal, propose}
use raft_recovery.Raft.Commands.Encoding.{Json, new_ack_command}
use raft_recovery.Controller.Core.{Logs}
use raft_recovery.Controller.Commands.{decode_command, ReadsCommands, decode-new_ack_command}
use raft_recovery.Controller.Starting.{apply_round}
use raft_recovery.Controller.Recover.{ack_command, handle_raft_command}
use raft_recovery.Server.Jobs.{Server, acknowledge_job, map_pb_status_to_type}
use raft_recovery.Server.Jobs.Replicated.{propose_accepted}
use raft_recovery.Worker.Source.{GrpcJobSource, ack_request, map_status_to_pb}
use raft_recovery.Worker.Pool.{Result}
use raft_recovery.Worker.Pool.Remote.{ack_status}

applied_buries :
    (jm : JobManager) (now : ℕ) (id : String) {job : Job}
    → IsIndexed jm id
    → lookup id jm.jobs ≡ some job
    → job.status ≡ in_flight
    → job.id ≡ id
    → has is_dead (lookup id (handle_raft_command jm now (ack_command id dead)).jobs) ≡ true
unfolding handle_raft_command mark_dead JobManager.get_job JobManager.is_completed
    JobManager.is_dead
applied_buries jm now id {job} v h running own =
    grind (arith, h, running, own, eq_iff id id, lookup-insert, v.completed_only, v.dead_exact)

-- What an acknowledgement that is answered with success has done.
acknowledge_job_proposed :
    (encode : String → JobStatus → Option String) (s : Server) (rf : Raft) (logs : Logs) (now : ℕ)
    (id : String) (status : PbStatus) {s' : Server} {effects : List Effect}
    → s.raft_node ≡ some rf
    → acknowledge_job encode s logs now id status ≡ some (s', effects, true)
    → (command : String) × (after : After) × (p : Proposal) × (encode id
          (map_pb_status_to_type status)
        ≡ some command)
      × (propose rf command ≡ some (after, p))
      × (p.accepted ≡ true)
      × (s'.raft_node ≡ some after.node)
unfolding acknowledge_job
acknowledge_job_proposed encode s rf logs now id status {s'} {effects} n =
    elim (Option-cases (encode id (map_pb_status_to_type status))) [
      | inl failed ↦ rw (n, acknowledge_job, failed) (λ e. cc)
      | inr (command, coded) ↦ elim (Option-cases (propose rf command)) [
        | inl panic ↦ rw (n, acknowledge_job, coded, panic) (λ e. cc)
        | inr ((after, p), done) ↦ elim (Bool-cases p.accepted) [
          | inr refused ↦ rw (n, acknowledge_job, coded, done, refused) (λ e. cc)
          | inl ok ↦
              rw (n, acknowledge_job, coded, done, ok)
                (λ e. (command, after, p, refl, done, ok, node_of after e))
        ]
      ]
    ]
  where
    node_of :
        (after : After) {effs : List Effect}
        → ◌≡◌ {A = Option (Server × List Effect × Bool)}
            (some (record s { raft_node = some after.node }, effs, true))
            (some (s', effects, true))
        → s'.raft_node ≡ some after.node
    node_of after e =
        ap (λ (x : Server × List Effect × Bool). x.0.raft_node) (sym (some-injective _ _ e))

-- On a server with a node of Raft, whose encoder reads back the commands that it writes and the
-- acknowledgement of this job as dead: if the acknowledgement of a task that failed is answered with
-- success, the leader's log has one entry more. Wherever this entry is applied, at a controller whose
-- indexes are right for this identifier, the job that was in flight there under its own identifier is dead,
-- however few attempts it had.
pub remote_failure_buries :
    (json : Json) (s : Server) (rf : Raft) (logs : Logs) (source : GrpcJobSource) (r : Result)
    (now : ℕ) {s' : Server} {effects : List Effect} (jm : JobManager) (later index : ℕ)
    (payload : String) {job : Job}
    → ReadsCommands json
    → json.marshal_ack r.job_id dead ≡ some payload
    → json.unmarshal_ack payload ≡ (r.job_id, dead)
    → s.raft_node ≡ some rf
    → r.success ≡ false
    → acknowledge_job
        (new_ack_command json)
        s
        logs
        now
        (ack_request source r.job_id (ack_status r)).job_id
        (ack_request source r.job_id (ack_status r)).status
      ≡ some (s', effects, true)
    → IsIndexed jm r.job_id
    → lookup r.job_id jm.jobs ≡ some job
    → job.status ≡ in_flight
    → job.id ≡ r.job_id
    → (rf' : Raft) × (entry : LogEntry) × (s'.raft_node ≡ some rf')
      × (rf'.log_store ≡ rf.log_store ++ entry ∷ [])
      × (has is_dead (
            lookup r.job_id
              (apply_round (decode_command json) jm later (record {
                command_valid = true;
                command = entry.command;
                command_index = index;
              })).jobs)
          ≡ true)
unfolding map_pb_status_to_type map_status_to_pb apply_round set_last_applied_index
remote_failure_buries json s rf logs source r now {s'} {effects} jm later index payload {job} reads
      written same n failed e v h running own =
    let (command, after, p, coded, done, ok, node) =
      acknowledge_job_proposed (new_ack_command json) s rf logs now r.job_id
        (map_status_to_pb (ack_status r)) {s' = s'} {effects = effects} n e in
    let (entry, grown, held) = propose_accepted rf command {after = after} {p = p} done ok in
    let buried : ack_status r ≡ dead = rw failed refl in
    let made =
      ap (λ x. new_ack_command json r.job_id (map_pb_status_to_type (map_status_to_pb x)))
        (sym buried)
      ∙ coded in
    let decoded : decode_command json entry.command ≡ ack_command r.job_id dead =
      ap (decode_command json) held
      ∙ decode-new_ack_command json r.job_id dead payload command reads written same made in
    (
      after.node,
      entry,
      node,
      grown,
      rw decoded (applied_buries jm later r.job_id {job = job} v h running own),
    )
