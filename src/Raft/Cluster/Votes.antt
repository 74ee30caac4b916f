-- ===== src/Raft/Cluster/Votes.antt =====
-- internal/raft: what an election sends, what a voter does with it, and what its reply counts.
use raft_recovery.Prelude.{
  ℕ, ◌+◌, ◌≡◌, ◌⊎◌, inl, inr, refl, true, false, none, some, List, [], ◌∷◌, String, str_eq, eq_iff,
  contains, arith, Option-cases,
}
use raft_recovery.Raft.Node.{Raft, After, RequestVoteArgs, RequestVoteReply, candidate, others}
use raft_recovery.Raft.Log.{last_index, get_log}
use raft_recovery.Raft.Election.{start_election, vote_effects, receive_vote}
use raft_recovery.Raft.Cluster.{request_to}

pub contains-others :
    (id p : String) (peers : List String)
    → contains p (others id peers) ≡ true
    → (contains p peers ≡ true) × (str_eq p id ≡ false)
unfolding others contains
contains-others id p [] h = cc
contains-others id p (q ∷ peers) h =
    ground (arith, eq_iff q id, eq_iff q p, eq_iff p id, contains-others id p peers)

request_to-vote_effects :
    (args : RequestVoteArgs) (p : String) (peers : List String) {args' : RequestVoteArgs}
    → request_to p (vote_effects args peers) ≡ some args'
    → (args' ≡ args) × (contains p peers ≡ true)
unfolding request_to vote_effects contains
request_to-vote_effects args p [] h = cc
request_to-vote_effects args p (q ∷ peers) {args' = found} h =
    ground (arith, eq_iff q p, request_to-vote_effects args p peers {args' = found})

-- An election is of the next term, the node votes for itself, and each other peer may be sent a request
-- for that term and that candidate.
pub record Election (rf : Raft) (after : After) : Type 0 where
  pub term : after.node.current_term ≡ rf.current_term + 1
  pub vote : after.node.voted_for ≡ rf.config.id
  pub role : after.node.state ≡ candidate
  pub identity : after.node.config ≡ rf.config
  pub sent :
      (p : String) (args : RequestVoteArgs)
      → request_to p after.effects ≡ some args
      → (args.term ≡ rf.current_term + 1)
        × (args.candidate_id ≡ rf.config.id)
        × (contains p rf.config.peers ≡ true)
        × (str_eq p rf.config.id ≡ false)

start_election_node :
    (rf : Raft) {after : After}
    → start_election rf ≡ some after
    → (after.node.current_term ≡ rf.current_term + 1)
      × (after.node.voted_for ≡ rf.config.id)
      × (after.node.state ≡ candidate)
      × (after.node.config ≡ rf.config)
      × ((args : RequestVoteArgs) × (args.term ≡ rf.current_term + 1)
          × (args.candidate_id ≡ rf.config.id)
          × (after.effects ≡ vote_effects args (others rf.config.id rf.config.peers)))
unfolding start_election
start_election_node rf {after = after} e = elim (Option-cases (last_index rf.log_store)) [
  | inl empty ↦ absurd (no_last empty)
  | inr (last, l) ↦ elim (Option-cases (get_log rf.log_store last)) [
    | inl missing ↦ absurd (no_entry last l missing)
    | inr (entry, g) ↦ (
      ground arith,
      ground arith,
      ground arith,
      ground arith,
      (
        record {
          term = rf.current_term + 1;
          candidate_id = rf.config.id;
          last_log_index = last;
          last_log_term = entry.term;
        },
        refl,
        refl,
        ground arith,
      ),
    )
  ]
]
  where
    no_last : last_index rf.log_store ≡ none → ⊥
    no_last empty = ground arith

    no_entry :
        (last : ℕ) → last_index rf.log_store ≡ some last → get_log rf.log_store last ≡ none → ⊥
    no_entry last l missing = ground arith

pub start_election-Election :
    (rf : Raft) {after : After} → start_election rf ≡ some after → Election rf after
start_election-Election rf {after = after} e =
    let n = start_election_node rf {after = after} e in
    record {
      term = n.0;
      vote = n.1;
      role = n.2;
      identity = n.3;
      sent = λ p args h.
          let there : request_to p (vote_effects n.4.0 (others rf.config.id rf.config.peers))
              ≡ some args =
            cc in
          let r = request_to-vote_effects n.4.0 p (others rf.config.id rf.config.peers) there in
          let m = contains-others rf.config.id p rf.config.peers r.1 in
          (ground arith, ground arith, m.0, m.1);
    }

-- The counter grows by one if the vote was granted, or stays.
pub receive_vote-votes :
    (rf : Raft) (votes term : ℕ) (reply : RequestVoteReply) {after : After} {votes' : ℕ}
    → receive_vote rf votes term reply ≡ some (after, votes')
    → (votes' ≡ votes) ⊎ ((votes' ≡ votes + 1) × (reply.vote_granted ≡ true))
unfolding receive_vote
receive_vote-votes rf votes term reply e = ground arith
