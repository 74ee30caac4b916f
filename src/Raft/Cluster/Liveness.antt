-- ===== src/Raft/Cluster/Liveness.antt =====
-- internal/raft: an election can succeed.
pub mod Peers
mod Rounds
mod Tests
use raft_recovery.Prelude.{
  ℕ, ◌+◌, ◌/◌, ◌<◌, ◌≤◌, ◌≡◌, ◌⊎◌, inl, inr, refl, sym, ◌∙◌, ap, Bool, true, false, not, Option,
  none, some, List, [], ◌∷◌, String, str_eq, eq_iff, contains, length, arith, ltb, ◌==◌, ◌&&◌, ◌||◌,
  if◌then◌else◌, Bool-cases, Option-cases,
}
use raft_recovery.Raft.Log.{last_index, get_log, new_memory_log_store}
use raft_recovery.Raft.Node.{
  Raft, State, After, Config, RequestVoteArgs, RequestVoteReply, Effect, leader, candidate,
  follower, is_leader, is_candidate, leave, new_raft, others,
}
use raft_recovery.Raft.Election.{
  request_vote, receive_vote, start_election, convert_to_leader, vote_effects,
}
use raft_recovery.Raft.Election.Votes.{request_vote_granted_iff, request_vote_reply}
use raft_recovery.Raft.Cluster.{
  Call, Cluster, Step, campaign, deliver, collect, other, Steps, here, next, fresh, idle, asked,
  answered, finished, set_node, set_call, set_calls, set_votes, request_to,
}
use raft_recovery.Raft.Cluster.Liveness.Peers.{
  IsDistinct, contains-others_iff, others-IsDistinct, length-others, asks_all,
}
use raft_recovery.Raft.Cluster.Liveness.Rounds.{self, Standing, comes_to_lead}

module _ (peers : List String) (c : String) where
  abbrev newcomer : Raft
  newcomer = new_raft (record { id = c; peers = peers }) new_memory_log_store

  abbrev first_args : RequestVoteArgs
  first_args = record { term = 1; candidate_id = c; last_log_index = 0; last_log_term = 0 }

  abbrev stands : After
  stands = record {
    node = record newcomer { state = candidate; current_term = 1; voted_for = c };
    effects = vote_effects first_args (others c peers);
  }

  stands_first : start_election newcomer ≡ some stands
  unfolding start_election new_raft new_memory_log_store last_index get_log
  stands_first = refl

  abbrev campaigned : Cluster
  campaigned = set_votes (set_calls (set_node (fresh peers) c stands.node) c 1 stands.effects) c 1 1

  campaigned-node : campaigned.node c ≡ stands.node
  unfolding set_votes set_calls set_node
  campaigned-node = rw (self c) refl

  campaigned-votes : campaigned.votes c 1 ≡ 1
  unfolding set_votes
  campaigned-votes = rw (self c) refl

  campaigned-others : (p : String) → str_eq c p ≡ false → (campaigned.node p).current_term ≡ 0
  unfolding set_votes set_calls set_node new_raft
  campaigned-others p apart = rw apart refl

  campaigned-call :
      (p : String) → contains p (others c peers) ≡ true → campaigned.call c 1 p ≡ asked first_args
  unfolding set_votes set_calls set_node
  campaigned-call p h = rw (self c, asks_all first_args p (others c peers) h) refl

  newcomer-last : last_index stands.node.log_store ≡ some 0
  unfolding new_raft new_memory_log_store last_index
  newcomer-last = refl

  campaigned-Standing : Standing peers c campaigned 1 (others c peers)
  unfolding new_raft
  campaigned-Standing = record {
    role = ap (λ rf. rf.state) campaigned-node;
    term = ap (λ rf. rf.current_term) campaigned-node;
    known = ap (λ rf. rf.config.peers) campaigned-node;
    stored = (0, ap (λ rf. last_index rf.log_store) campaigned-node ∙ newcomer-last);
    tally = campaigned-votes;
    waits = λ p h.
        let apart : str_eq c p ≡ false = ground (arith, h, contains-others_iff c p peers) in
        (apart, campaigned-others p apart, (first_args, campaigned-call p h, refl));
  }

-- Among at least two peers of different names, none of which is in the list twice, any of the peers can
-- come to lead: some order of the steps of new nodes ends with it as leader.
pub can_lead :
    (peers : List String) (c : String)
    → IsDistinct peers
    → contains c peers ≡ true
    → 2 ≤ length peers
    → (s : Cluster) × Steps peers (fresh peers) s × ((s.node c).state ≡ leader)
unfolding new_raft
can_lead peers c d m two =
    let rest = length-others c peers d m in
    comes_to_lead peers c {s0 = fresh peers} (campaigned peers c) 1 (others c peers)
      (next here (campaign c {after = stands peers c} m refl (stands_first peers c)))
      (others-IsDistinct c peers d) (campaigned-Standing peers c) (omega arith) (omega arith)
