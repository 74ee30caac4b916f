-- ===== src/Raft/Election/Tests.antt =====
-- internal/raft: the theorems on votes at one node.
use raft_recovery.Prelude.{◌<◌, ◌≡◌, ◌↔◌, ◌⊎◌, true, [], ◌∷◌, String}
use raft_recovery.Raft.Node.{Raft, RequestVoteArgs, candidate, new_raft}
use raft_recovery.Raft.Log.{new_memory_log_store}
use raft_recovery.Raft.Election.{request_vote}
use raft_recovery.Raft.Election.Votes.{request_vote_granted_iff}

abbrev node : Raft
node =
    record (new_raft (record { id = "n1"; peers = "n1" ∷ "n2" ∷ "n3" ∷ [] }) new_memory_log_store) {
      current_term = 2;
      state = candidate;
      voted_for = "n1";
    }

abbrev ask : String → RequestVoteArgs
ask id = record { term = 3; candidate_id = id; last_log_index = 0; last_log_term = 0 }

request_vote_granted_iff_example : ((request_vote node (ask "n2")).1.vote_granted ≡ true) ↔ (
    (node.current_term < 3)
    ⊎ ((node.current_term ≡ 3) × ((node.voted_for ≡ "") ⊎ (node.voted_for ≡ "n2"))))
request_vote_granted_iff_example = request_vote_granted_iff node (ask "n2")
