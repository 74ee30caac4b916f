-- ===== src/Raft/Steps.antt =====
-- internal/raft: the critical sections of a node as the steps of one machine.
pub mod Quiet
pub mod Terms
mod Tests
use raft_recovery.Prelude.{ℕ, Option, none, some, String, if◌then◌else◌, Bool, List, [], ◌∷◌}
use raft_recovery.Raft.Node.{
  Raft, After, RequestVoteArgs, RequestVoteReply, AppendEntriesArgs, AppendEntriesReply,
}
use raft_recovery.Raft.Election.{request_vote, receive_vote, election_tick, heartbeat_tick}
use raft_recovery.Raft.Replication.{append_entries, replicate_request, replicate_reply}
use raft_recovery.Raft.Commands.{propose, apply_logs, snapshot}

-- What can make a node take its mutex.
pub data Input : Type 0 where
  vote_request : RequestVoteArgs → Input
  append_request : AppendEntriesArgs → Input
  election_timeout heartbeat_timeout apply_committed : Input
  vote_reply : ℕ → ℕ → RequestVoteReply → Input
  append_reply : String → AppendEntriesArgs → AppendEntriesReply → Input
  proposal : String → Input
  compaction : ℕ → Input

abbrev pub node_of : Option After → Option Raft
node_of none = none
node_of (some after) = some after.node

abbrev pub node_of_pair {ℓ} : {B : Type ℓ} → Option (After × B) → Option Raft
node_of_pair none = none
node_of_pair (some (after, b)) = some after.node

abbrev pub first_of_pair {ℓ} : {B : Type ℓ} → Option (Raft × B) → Option Raft
first_of_pair none = none
first_of_pair (some (rf, b)) = some rf

-- The node after a step; `none` is a panic.
unfoldable pub step : Raft → Input → Option Raft
step rf (vote_request args) = some ((request_vote rf args).0.node)
step rf (append_request args) = node_of_pair (append_entries rf args)
step rf election_timeout = node_of (election_tick rf)
step rf heartbeat_timeout = some ((heartbeat_tick rf).node)
step rf apply_committed = first_of_pair (apply_logs rf)
step rf (vote_reply votes term reply) = node_of_pair (receive_vote rf votes term reply)
step rf (append_reply peer args reply) = node_of (replicate_reply rf peer args reply)
step rf (proposal command) = node_of_pair (propose rf command)
step rf (compaction index) = snapshot rf index

-- The node after a run of steps.
unfoldable pub run : Raft → List Input → Option Raft
run rf [] = some rf
run rf (input ∷ inputs) = elim (step rf input) [ none ↦ none | some rf' ↦ run rf' inputs ]
