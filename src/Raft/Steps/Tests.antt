-- ===== src/Raft/Steps/Tests.antt =====
-- internal/raft: a short life of a node.
use raft_recovery.Prelude.{◌≡◌, refl, some, List, [], ◌∷◌}
use raft_recovery.Raft.Node.{Raft, follower, candidate}
use raft_recovery.Raft.Log.{new_memory_log_store, last_index, get_log, first_index}
use raft_recovery.Raft.Election.{request_vote, election_tick, heartbeat_tick}
use raft_recovery.Raft.Steps.{Input, step, run, election_timeout, vote_request, heartbeat_timeout}
use raft_recovery.Raft.Steps.Quiet.{KeepsVote}
use raft_recovery.Raft.Steps.Terms.{run-KeepsVote}

abbrev fresh : Raft
fresh = record {
  current_term = 0;
  voted_for = "";
  log_store = new_memory_log_store;
  last_included_index = 0;
  last_included_term = 0;
  state = follower;
  leader_id = "";
  commit_index = 0;
  last_applied = 0;
  next_index = [];
  match_index = [];
  config = record { id = "n1"; peers = "n1" ∷ "n2" ∷ "n3" ∷ [] };
}

abbrev standing : Raft
standing = record fresh { state = candidate; current_term = 1; voted_for = "n1" }

-- After its own vote the node is asked by another for the same term.
abbrev evening : List Input
evening =
    election_timeout
    ∷ vote_request (record { term = 1; candidate_id = "n2"; last_log_index = 0; last_log_term = 0 })
    ∷ heartbeat_timeout
    ∷ []

fresh_ends : run fresh evening ≡ some standing
unfolding run step election_tick heartbeat_tick request_vote new_memory_log_store last_index get_log
    first_index
fresh_ends = refl

run-KeepsVote_example : KeepsVote fresh standing
run-KeepsVote_example = run-KeepsVote fresh evening {rf' = standing} fresh_ends
