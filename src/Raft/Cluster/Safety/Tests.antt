-- ===== src/Raft/Cluster/Safety/Tests.antt =====
-- internal/raft: an election among three nodes.
use raft_recovery.Prelude.{◌≡◌, refl, List, [], ◌∷◌, String, contains}
use raft_recovery.Raft.Log.{new_memory_log_store, last_index, get_log, first_index}
use raft_recovery.Raft.Node.{new_raft}
use raft_recovery.Raft.Election.{start_election, request_vote, receive_vote, heartbeat_tick}
use raft_recovery.Raft.Steps.{step, heartbeat_timeout}
use raft_recovery.Raft.Cluster.{
  Cluster, Steps, here, next, campaign, deliver, collect, other, fresh, set_node, set_call,
  set_calls, set_votes, request_to,
}
use raft_recovery.Raft.Cluster.Safety.{one_leader}

abbrev peers : List String
peers = "n1" ∷ "n2" ∷ "n3" ∷ []

-- n1 stands, n2 votes for it, and n1 counts the vote.
elected : (s : Cluster) × Steps peers (fresh peers) s
unfolding start_election request_vote receive_vote new_raft new_memory_log_store last_index get_log
    first_index set_node set_call set_calls set_votes request_to contains
elected = (
  _,
  next (next (next here (campaign "n1" refl refl refl)) (deliver "n1" "n2" 1 refl))
      (collect "n1" "n2" 1 refl refl),
)

-- The leader goes on to send heartbeats.
beating : (s : Cluster) × Steps peers elected.0 s
unfolding elected step heartbeat_tick
beating = (_, next here (other "n1" heartbeat_timeout refl refl refl))

one_leader_example : ◌≡◌ {A = String} "n1" "n1"
unfolding elected beating
one_leader_example =
    one_leader peers {s = elected.0} {s' = beating.0} "n1" "n1" refl elected.1 beating.1 refl refl
      refl
