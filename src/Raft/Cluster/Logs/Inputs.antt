-- ===== src/Raft/Cluster/Logs/Inputs.antt =====
-- internal/raft: what each step of a node does to its log.
use raft_recovery.Prelude.{
  ℕ, zero, suc, ◌+◌, ◌≡◌, refl, sym, ap, ◌∙◌, some, none, true, false, [], ◌∷◌, ◌++◌, length, take,
  arith, inl, inr, ◌⊎◌, sub_ℕ, String, Bool-cases, Option-cases, length-append,
}
use raft_recovery.Raft.Log.{Log, last_index, store_log, store_logs}
use raft_recovery.Raft.Log.Contiguous.{Contiguous, get_elem?-Contiguous, last_index-Contiguous}
use raft_recovery.Raft.Node.{
  Raft, After, AppendEntriesArgs, AppendEntriesReply, RequestVoteArgs, is_leader, RequestVoteReply,
  leader, convert_to_follower,
}
use raft_recovery.Raft.Election.{request_vote, start_election, receive_vote, heartbeat_tick}
use raft_recovery.Raft.Replication.{
  append_entries, see_leader, append_checked, replicate_reply, update_commit_index, commit_loop,
  record_match, step_back, prev_conflicts, lt_ℤ, term_at,
}
use raft_recovery.Raft.Replication.Append.{append_entries-Appended}
use raft_recovery.Raft.Commands.{Proposal, propose, apply_logs}
use raft_recovery.Raft.Steps.{
  Input, vote_request, append_request, election_timeout, heartbeat_timeout, apply_committed,
  vote_reply, append_reply, proposal, compaction, step,
}
use raft_recovery.Raft.Steps.Quiet.{of_node, of_node_pair, is_election, append_checked-Same}
use raft_recovery.Raft.Cluster.Logs.Entries.{Matches, append_loop-start, start_of, get_log_zero}

pub request_vote-log :
    (rf : Raft) (args : RequestVoteArgs) → (request_vote rf args).0.node.log_store ≡ rf.log_store
unfolding request_vote
request_vote-log rf args = ground arith

pub start_election-log :
    (rf : Raft) {after : After}
    → start_election rf ≡ some after
    → after.node.log_store ≡ rf.log_store
unfolding start_election
start_election-log rf e = ground arith

pub receive_vote-log :
    (rf : Raft) (votes term : ℕ) (reply : RequestVoteReply) {after : After} {votes' : ℕ}
    → receive_vote rf votes term reply ≡ some (after, votes')
    → after.node.log_store ≡ rf.log_store
unfolding receive_vote convert_to_follower
receive_vote-log rf votes term reply e = ground arith

commit_loop-log : (rf : Raft) (count : ℕ) → (commit_loop rf count).node.log_store ≡ rf.log_store
unfolding commit_loop
commit_loop-log rf zero = refl
commit_loop-log rf (suc count) = ground (arith, commit_loop-log rf count)

update_commit_index-log :
    (rf : Raft) {after : After}
    → update_commit_index rf ≡ some after
    → after.node.log_store ≡ rf.log_store
unfolding update_commit_index
update_commit_index-log rf e = grind (arith, commit_loop-log)

pub replicate_reply-log :
    (rf : Raft) (peer : String) (args : AppendEntriesArgs) (reply : AppendEntriesReply)
    {after : After}
    → replicate_reply rf peer args reply ≡ some after
    → after.node.log_store ≡ rf.log_store
unfolding replicate_reply convert_to_follower record_match step_back
replicate_reply-log rf peer args reply e = grind (arith, update_commit_index-log)

-- A proposal leaves the log, or puts an entry of the leader's term behind it.
pub propose-log :
    (rf : Raft) (command : String) {after : After} {answer : Proposal}
    → propose rf command ≡ some (after, answer)
    → (after.node.log_store ≡ rf.log_store)
      ⊎ ((last : ℕ) × (last_index rf.log_store ≡ some last)
          × (rf.state ≡ leader)
          × (after.node.log_store
              ≡ rf.log_store
                ++ record { term = rf.current_term; index = last + 1; command = command } ∷ [])
          × (after.node.current_term ≡ rf.current_term))
unfolding propose store_log store_logs
propose-log rf command e = elim (Bool-cases (is_leader rf.state)) [
  | inr follows ↦ inl (ground arith)
  | inl leads ↦ elim (Option-cases (last_index rf.log_store)) [
    | inl empty ↦ absurd (stuck leads empty)
    | inr (last, l) ↦ inr (last, l, ground arith, ground arith, ground arith)
  ]
]
  where
    stuck : is_leader rf.state ≡ true → last_index rf.log_store ≡ none → ⊥
    stuck leads empty = ground arith

append_entries-term :
    (rf : Raft) (args : AppendEntriesArgs) {after : After} {reply : AppendEntriesReply}
    → append_entries rf args ≡ some (after, reply)
    → reply.success ≡ true
    → after.node.current_term ≡ args.term
unfolding append_entries see_leader convert_to_follower
append_entries-term rf args e ok = grind (arith, append_checked-Same)

-- What a log has and a request agree on before the request's entries.
prev-Matches :
    (es whole pre more : Log) (last : ℕ)
    → Contiguous 0 es
    → Contiguous 0 whole
    → length es ≡ suc last
    → Matches es whole
    → whole ≡ pre ++ more
    → lt_ℤ last (sub_ℕ (length pre) 1) ≡ false
    → prev_conflicts es (sub_ℕ (length pre) 1) (term_at whole (sub_ℕ (length pre) 1)) ≡ false
    → take (length pre) es ≡ pre
unfolding prev_conflicts
prev-Matches es whole [] more last c d len m parts reached agrees = refl
prev-Matches es whole (p ∷ pre) more last c d len m parts reached agrees =
    let old = get_elem?-Contiguous 0 es (length pre) c (ground arith) in
    let new =
      get_elem?-Contiguous 0 whole (length pre) d
        (omega (arith, ap length parts, length-append (p ∷ pre) more)) in
    let seen = get_log_zero es (length pre) c ∙ old.1 in
    let there = get_log_zero whole (length pre) d ∙ new.1 in
    m (length pre) old.0 new.0 old.1 new.1 (ground (arith, seen, there))
    ∙ start_of whole (p ∷ pre) more parts

pub last_index-length :
    (es : Log) (last : ℕ) → Contiguous 0 es → last_index es ≡ some last → length es ≡ suc last
last_index-length [] last c l = unfold last_index in cc
last_index-length (e ∷ es) last c l = ground (arith, last_index-Contiguous 0 e es c)

unlogged :
    (rf : Raft) (args : AppendEntriesArgs)
    → last_index rf.log_store ≡ none
    → {after : After} {reply : AppendEntriesReply} → append_entries rf args ≡ some (after, reply)
    → after.node.log_store ≡ rf.log_store
unfolding append_entries append_checked see_leader convert_to_follower
unlogged rf args empty e = ground arith

-- A request for a part of a log that starts at 0, at a node whose log matches that one: the node keeps
-- its log, or is in the request's term with the log up to the end of the part.
pub append_entries-log :
    (rf : Raft) (args : AppendEntriesArgs) (whole pre rest : Log) {after : After}
    {reply : AppendEntriesReply}
    → Contiguous 0 rf.log_store
    → Contiguous 0 whole
    → Matches rf.log_store whole
    → whole ≡ pre ++ (args.entries ++ rest)
    → args.prev_log_index ≡ sub_ℕ (length pre) 1
    → args.prev_log_term ≡ term_at whole (sub_ℕ (length pre) 1)
    → append_entries rf args ≡ some (after, reply)
    → (after.node.log_store ≡ rf.log_store)
      ⊎ ((after.node.log_store ≡ pre ++ args.entries) × (after.node.current_term ≡ args.term))
append_entries-log rf args whole pre rest {after} {reply} c d m parts prev prev_term e =
    elim (Option-cases (last_index rf.log_store)) [
      | inl empty ↦ inl (unlogged rf args empty {after = after} {reply = reply} e)
      | inr (last, l) ↦ elim (append_entries-Appended rf last l args after reply e) [
        | inl refused ↦ inl refused.1
        | inr a ↦
            let len = last_index-length rf.log_store last c l in
            let before =
              prev-Matches rf.log_store whole pre (args.entries ++ rest) last c d len m parts
                (ap (lt_ℤ last) (sym prev) ∙ a.prev_reached)
                (ap (prev_conflicts rf.log_store (sub_ℕ (length pre) 1)) (sym prev_term)
                  ∙ ap (λ x. prev_conflicts rf.log_store x args.prev_log_term) (sym prev)
                  ∙ a.prev_agrees) in
            elim (append_loop-start last rf.log_store whole pre args.entries rest c d len m before
              parts) [
                | inl same ↦ inl (a.appended ∙ same)
                | inr new ↦ inr (a.appended ∙ new, append_entries-term rf args e a.succeeded)
              ]
      ]
    ]

-- What a step may do to a log: nothing, or a request or a proposal.
pub data Change (rf rf' : Raft) (input : Input) : Type 0 where
  kept : rf'.log_store ≡ rf.log_store → Change rf rf' input
  appends :
      (args : AppendEntriesArgs) {after : After} {reply : AppendEntriesReply}
      → input ≡ append_request args
      → append_entries rf args ≡ some (after, reply)
      → after.node ≡ rf'
      → Change rf rf' input
  proposes :
      (last : ℕ) (command : String)
      → last_index rf.log_store ≡ some last
      → rf.state ≡ leader
      → rf'.log_store
        ≡ rf.log_store
          ++ record { term = rf.current_term; index = last + 1; command = command } ∷ []
      → rf'.current_term ≡ rf.current_term
      → Change rf rf' input

proposal-Change :
    (rf : Raft) (command : String) (after : After) (answer : Proposal)
    → propose rf command ≡ some (after, answer)
    → Change rf after.node (proposal command)
proposal-Change rf command after answer e =
    elim (propose-log rf command {after = after} {answer = answer} e) [
      | inl same ↦ kept same
      | inr (last, l, lead, log, term) ↦ proposes last command l lead log term
    ]

pub step-Change :
    (rf : Raft) (input : Input) {rf' : Raft}
    → is_election input ≡ false
    → ((index : ℕ) → input ≡ compaction index → ⊥)
    → step rf input ≡ some rf'
    → Change rf rf' input
step-Change rf (vote_request args) q no_cut e =
    let same = request_vote-log rf args in kept (unfold step in ground arith)
step-Change rf (append_request args) {rf'} q no_cut e =
    unfold step in
    of_node_pair (λ n. Change rf n (append_request args)) (append_entries rf args)
      (λ a b h. appends args {after = a} {reply = b} refl h refl) e
step-Change rf election_timeout q no_cut e = cc
step-Change rf heartbeat_timeout q no_cut e = kept (unfold step heartbeat_tick in ground arith)
step-Change rf apply_committed q no_cut e = kept (unfold step apply_logs in ground arith)
step-Change rf (vote_reply votes term reply) q no_cut e = cc
step-Change rf (append_reply peer args reply) q no_cut e =
    unfold step in
    of_node (λ n. Change rf n (append_reply peer args reply)) (replicate_reply rf peer args reply)
      (λ a h. kept (replicate_reply-log rf peer args reply {after = a} h)) e
step-Change rf (proposal command) q no_cut e =
    unfold step in
    of_node_pair (λ n. Change rf n (proposal command)) (propose rf command)
      (λ a b h. proposal-Change rf command a b h) e
step-Change rf (compaction index) q no_cut e = absurd (no_cut index refl)
