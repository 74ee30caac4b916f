-- ===== src/Raft/Steps/Quiet.antt =====
-- internal/raft: the steps that start no election and count no vote.
use raft_recovery.Prelude.{
  ℕ, suc, ◌<◌, ◌≡◌, refl, ◌⊎◌, Option, none, some, String, List, arith, eq_iff, zero, subst, Bool,
  true, false,
}
use mathlib.Core.Option.{some-injective}
use raft_recovery.Raft.Node.{
  Raft, After, Effect, AppendEntriesArgs, AppendEntriesReply, RequestVoteArgs, follower,
  convert_to_follower,
}
use raft_recovery.Raft.Election.{request_vote, heartbeat_tick}
use raft_recovery.Raft.Replication.{
  append_entries, see_leader, append_checked, advance_commit, replicate_reply, update_commit_index,
  commit_loop, record_match, step_back,
}
use raft_recovery.Raft.Commands.{Proposal, propose, apply_logs, snapshot}
use raft_recovery.Raft.Steps.{
  node_of, node_of_pair, Input, vote_request, append_request, election_timeout, heartbeat_timeout,
  apply_committed, vote_reply, append_reply, proposal, compaction, step,
}

-- The vote of a term: a new term, or the same with the vote it had, or with its first vote.
abbrev pub KeepsVote : Raft → Raft → Type 0
KeepsVote rf rf' =
    (rf.current_term < rf'.current_term)
    ⊎ ((rf'.current_term ≡ rf.current_term)
        × ((rf.voted_for ≡ "") ⊎ (rf'.voted_for ≡ rf.voted_for)))

-- The role is kept in the term, or the node is follower in a later one; the configuration is kept.
abbrev pub Quiet : Raft → Raft → Type 0
Quiet rf rf' =
    KeepsVote rf rf'
    × (((rf'.state ≡ rf.state) × (rf'.current_term ≡ rf.current_term))
        ⊎ ((rf'.state ≡ follower) × (rf.current_term < rf'.current_term)))
    × (rf'.config ≡ rf.config)

-- What replication leaves alone.
pub record Same (rf rf' : Raft) : Type 0 where
  pub term : rf'.current_term ≡ rf.current_term
  pub vote : rf'.voted_for ≡ rf.voted_for
  pub role : rf'.state ≡ rf.state
  pub identity : rf'.config ≡ rf.config

advance_commit-Same :
    (rf : Raft) (leader_commit : ℕ) {after : After}
    → advance_commit rf leader_commit ≡ some after
    → Same rf after.node
unfolding advance_commit
advance_commit-Same rf leader_commit e = ground arith

pub append_checked-Same :
    (rf : Raft) (effects : List Effect) (term : ℕ) (args : AppendEntriesArgs) {after : After}
    {reply : AppendEntriesReply}
    → append_checked rf effects term args ≡ some (after, reply)
    → Same rf after.node
unfolding append_checked
append_checked-Same rf effects term args e = grind (arith, advance_commit-Same)

commit_loop-Same : (rf : Raft) (count : ℕ) → Same rf (commit_loop rf count).node
unfolding commit_loop
commit_loop-Same rf zero = record { term = refl; vote = refl; role = refl; identity = refl }
commit_loop-Same rf (suc count) = ground (arith, commit_loop-Same rf count)

update_commit_index-Same :
    (rf : Raft) {after : After} → update_commit_index rf ≡ some after → Same rf after.node
unfolding update_commit_index
update_commit_index-Same rf e = grind (arith, commit_loop-Same)

pub request_vote-Quiet :
    (rf : Raft) (args : RequestVoteArgs) → Quiet rf (request_vote rf args).0.node
unfolding request_vote
request_vote-Quiet rf args = grind (arith, eq_iff)

append_entries-Quiet :
    (rf : Raft) (args : AppendEntriesArgs) {after : After} {reply : AppendEntriesReply}
    → append_entries rf args ≡ some (after, reply)
    → Quiet rf after.node
unfolding append_entries see_leader convert_to_follower
append_entries-Quiet rf args e = grind (arith, append_checked-Same)

replicate_reply-Quiet :
    (rf : Raft) (peer : String) (args : AppendEntriesArgs) (reply : AppendEntriesReply)
    {after : After}
    → replicate_reply rf peer args reply ≡ some after
    → Quiet rf after.node
unfolding replicate_reply convert_to_follower record_match step_back
replicate_reply-Quiet rf peer args reply e = grind (arith, update_commit_index-Same)

propose-Quiet :
    (rf : Raft) (command : String) {after : After} {proposal : Proposal}
    → propose rf command ≡ some (after, proposal)
    → Quiet rf after.node
unfolding propose
propose-Quiet rf command e = ground arith

pub of_node :
    (P : Raft → Type 0) (o : Option After) {rf' : Raft}
    → ((after : After) → o ≡ some after → P after.node)
    → node_of o ≡ some rf'
    → P rf'
of_node P none f e = cc
of_node P (some after) f e = subst P (some-injective _ _ e) (f after refl)

pub of_node_pair :
    {B : Type 0} (P : Raft → Type 0) (o : Option (After × B)) {rf' : Raft}
    → ((after : After) (b : B) → o ≡ some (after, b) → P after.node)
    → node_of_pair o ≡ some rf'
    → P rf'
of_node_pair P none f e = cc
of_node_pair P (some (after, b)) f e = subst P (some-injective _ _ e) (f after b refl)

-- The inputs that start an election or count a vote.
abbrev pub is_election : Input → Bool
is_election election_timeout = true
is_election (vote_reply votes term reply) = true
is_election _ = false

pub step-Quiet :
    (rf : Raft) (input : Input) {rf' : Raft}
    → is_election input ≡ false
    → step rf input ≡ some rf'
    → Quiet rf rf'
unfolding step heartbeat_tick apply_logs snapshot
step-Quiet rf (vote_request args) q e = ground (arith, request_vote-Quiet rf args)
step-Quiet rf (append_request args) q e =
    of_node_pair (Quiet rf) (append_entries rf args) (λ a b h. append_entries-Quiet rf args h) e
step-Quiet rf election_timeout q e = cc
step-Quiet rf heartbeat_timeout q e = ground arith
step-Quiet rf apply_committed q e = ground arith
step-Quiet rf (vote_reply votes term reply) q e = cc
step-Quiet rf (append_reply peer args reply) q e =
    of_node (Quiet rf) (replicate_reply rf peer args reply)
      (λ a h. replicate_reply-Quiet rf peer args reply h) e
step-Quiet rf (proposal command) q e =
    of_node_pair (Quiet rf) (propose rf command) (λ a b h. propose-Quiet rf command h) e
step-Quiet rf (compaction index) q e = ground arith
