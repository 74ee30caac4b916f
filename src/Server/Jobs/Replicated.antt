-- ===== src/Server/Jobs/Replicated.antt =====
-- internal/server/server.go, internal/raft and internal/controller: a submitted job, from the request by
-- way of the leader's log to the controller of a node that applies the entry.
use raft_recovery.Prelude.{
  ℕ, ◌+◌, ◌≡◌, refl, sym, ap, ◌∙◌, true, Option, none, some, List, [], ◌∷◌, ◌++◌, String, arith,
  eq_iff, ◌*◌, ◌%◌, ◌^◌, str_eq, if◌then◌else◌, lookup, lookup-insert, Option-cases, Bool-cases,
  inl, inr,
}
use mathlib.Core.Option.{some-injective}
use raft_recovery.Types.{Job, pending}
use raft_recovery.JobManager.{JobManager, enqueue, get_job, set_last_applied_index}
use raft_recovery.Controller.Core.{Logs}
use raft_recovery.Controller.Recover.{
  RaftCommand, enqueue_command, apply_enqueues, handle_raft_command,
}
use raft_recovery.Controller.Starting.{apply_round}
use raft_recovery.Controller.Commands.{decode_command, ReadsCommands, decode-new_enqueue_command}
use raft_recovery.Raft.Log.{LogEntry, last_index, store_log, store_logs}
use raft_recovery.Raft.Node.{Raft, After, Effect}
use raft_recovery.Raft.Commands.{ApplyMsg, Proposal, propose}
use raft_recovery.Raft.Commands.Encoding.{Json, new_enqueue_command}
use raft_recovery.Server.Jobs.{
  Server, SubmitJobRequest, SubmitJobResponse, submitted, job_of, submit_job,
}

-- A proposal that is accepted is the last entry of the log.
pub propose_accepted :
    (rf : Raft) (command : String) {after : After} {p : Proposal}
    → propose rf command ≡ some (after, p)
    → p.accepted ≡ true
    → (entry : LogEntry) × (after.node.log_store ≡ rf.log_store ++ entry ∷ [])
      × (entry.command ≡ command)
unfolding propose store_log store_logs
propose_accepted rf command e ok = elim (Option-cases (last_index rf.log_store)) [
  | inl empty ↦ absurd (stuck empty)
  | inr (last, l) ↦
      (record { term = rf.current_term; index = last + 1; command = command }, ground arith, refl)
]
  where
    stuck : last_index rf.log_store ≡ none → ⊥
    stuck empty = ground arith

-- What a submission with success has done.
submit_job_proposed :
    (encode : List Job → Option String) (s : Server) (rf : Raft) (logs : Logs) (now : ℕ)
    (generated : String) (request : SubmitJobRequest) {s' : Server} {effects : List Effect}
    {id : String}
    → s.raft_node ≡ some rf
    → submit_job encode s logs now generated request ≡ some (s', effects, submitted id)
    → (command : String) × (after : After) × (p : Proposal) × (encode
          (job_of request generated now ∷ [])
        ≡ some command)
      × (propose rf command ≡ some (after, p))
      × (p.accepted ≡ true)
      × (s'.raft_node ≡ some after.node)
      × (id ≡ (job_of request generated now).id)
unfolding submit_job
submit_job_proposed encode s rf logs now generated request {s'} {effects} {id} n =
    elim (Bool-cases request.payload_valid) [
      | inr invalid ↦ rw (invalid, submit_job) (λ e. cc)
      | inl valid ↦ elim (Option-cases (encode (job_of request generated now ∷ []))) [
        | inl failed ↦ rw (valid, n, submit_job, failed) (λ e. cc)
        | inr (command, coded) ↦ elim (Option-cases (propose rf command)) [
          | inl panic ↦ rw (valid, n, submit_job, coded, panic) (λ e. cc)
          | inr ((after, p), done) ↦ elim (Bool-cases p.accepted) [
            | inr refused ↦ rw (valid, n, submit_job, coded, done, refused) (λ e. cc)
            | inl ok ↦
                rw (valid, n, submit_job, coded, done, ok)
                  (λ e. (command, after, p, refl, done, ok, node_of after e, id_of after e))
          ]
        ]
      ]
    ]
  where
    node_of :
        (after : After) {effs : List Effect} {job_id : String}
        → ◌≡◌ {A = Option (Server × List Effect × SubmitJobResponse)}
            (some (record s { raft_node = some after.node }, effs, submitted job_id))
            (some (s', effects, submitted id))
        → s'.raft_node ≡ some after.node
    node_of after e =
        ap (λ (x : Server × List Effect × SubmitJobResponse). x.0.raft_node)
          (sym (some-injective _ _ e))

    id_of :
        (after : After) {effs : List Effect} {job_id : String}
        → ◌≡◌ {A = Option (Server × List Effect × SubmitJobResponse)}
            (some (record s { raft_node = some after.node }, effs, submitted job_id))
            (some (s', effects, submitted id))
        → id ≡ job_id
    id_of after e = cc

apply_round_enqueues :
    (decode : String → RaftCommand) (jm : JobManager) (now : ℕ) (msg : ApplyMsg) (job : Job)
    → msg.command_valid ≡ true
    → decode msg.command ≡ enqueue_command (job ∷ [])
    → lookup job.id jm.jobs ≡ none
    → lookup job.id (apply_round decode jm now msg).jobs
      ≡ some (record job { status = pending; created_at = now; updated_at = now })
unfolding apply_round handle_raft_command apply_enqueues get_job enqueue set_last_applied_index
apply_round_enqueues decode jm now msg job valid decoded unknown =
    grind (arith, eq_iff job.id job.id, lookup-insert)

-- The job that a request asks for, under an identifier: its timeout in milliseconds as one in nanoseconds,
-- in 64 bits.
abbrev pub requested : SubmitJobRequest → String → ℕ → Job
requested request id now = record {
  id = id;
  payload = request.payload;
  status = pending;
  attempt = 0;
  timeout = request.timeout_ms * 1000000 % 2 ^ 64;
  deadline = none;
  created_at = now;
  updated_at = now;
  worker_id = "";
}

-- A server with a node, whose encoder reads back the commands that it writes and the payload for the job
-- that the request asks for: if it answers a submission with success, the answer has the identifier of the
-- request, or the generated one if the request has none, and the leader's log has one entry more. Wherever
-- this entry is applied, at a controller that does not know the job, the job is there under this
-- identifier, pending, with no attempt, and with the payload and the timeout of the request.
pub submit_job_replicated :
    (json : Json) (s : Server) (rf : Raft) (logs : Logs) (now : ℕ) (generated : String)
    (request : SubmitJobRequest) {s' : Server} {effects : List Effect} {id : String}
    (jm : JobManager) (later index : ℕ) (payload : String)
    → ReadsCommands json
    → json.marshal_jobs (requested request id now ∷ []) ≡ some payload
    → json.unmarshal_jobs payload ≡ requested request id now ∷ []
    → s.raft_node ≡ some rf
    → submit_job (new_enqueue_command json) s logs now generated request
      ≡ some (s', effects, submitted id)
    → lookup id jm.jobs ≡ none
    → (rf' : Raft) × (entry : LogEntry) × (id
        ≡ (if str_eq request.job_id "" then generated else request.job_id))
      × (s'.raft_node ≡ some rf')
      × (rf'.log_store ≡ rf.log_store ++ entry ∷ [])
      × (lookup id
            (apply_round (decode_command json) jm later (record {
              command_valid = true;
              command = entry.command;
              command_index = index;
            })).jobs
          ≡ some (requested request id later))
unfolding job_of
submit_job_replicated json s rf logs now generated request {s'} {effects} {id} jm later index
      payload reads written same n e unknown =
    let (command, after, p, coded, done, ok, node, named) =
      submit_job_proposed (new_enqueue_command json) s rf logs now generated request {s' = s'}
        {effects = effects} {id = id} n e in
    let (entry, grown, held) = propose_accepted rf command {after = after} {p = p} done ok in
    let job = requested request id now in
    let made = ap (λ i. new_enqueue_command json (requested request i now ∷ [])) named ∙ coded in
    let msg : ApplyMsg = record {
      command_valid = true;
      command = entry.command;
      command_index = index;
    } in
    let decoded : decode_command json entry.command ≡ enqueue_command (job ∷ []) =
      ap (decode_command json) held
      ∙ decode-new_enqueue_command json (job ∷ []) payload command reads written same made in
    (
      after.node,
      entry,
      named,
      node,
      grown,
      apply_round_enqueues (decode_command json) jm later msg job refl decoded unknown,
    )
