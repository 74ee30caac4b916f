-- ===== src/Raft/Election.antt =====
-- internal/raft/raft.go and rpc.go: elections. `none` is a panic of the log store.

pub mod Votes
mod Tests
use raft_recovery.Prelude.{
  ℕ, ◌+◌, ◌/◌, Bool, true, false, Option, none, some, List, [], ◌∷◌, ◌++◌, String, ℤ, pos, str_eq,
  insert, length, ltb, if◌then◌else◌, ◌||◌, not, ◌==◌,
}
use raft_recovery.Raft.Log.{Log, last_index, get_log}
use raft_recovery.Raft.Node.{
  Raft, Config, State, follower, candidate, leader, is_leader, is_candidate, RequestVoteArgs,
  RequestVoteReply, Effect, reset_election_timer, go_send_request_vote, After, leave,
  convert_to_follower, others, broadcast_heartbeats,
}

-- The part of `RequestVote` for a request that is not stale.
unfoldable pub cast_vote : Raft → RequestVoteArgs → After × RequestVoteReply
cast_vote rf args =
    if str_eq rf.voted_for "" || str_eq rf.voted_for args.candidate_id
    then (
      record {
        node = record rf { voted_for = args.candidate_id };
        effects = reset_election_timer ∷ [];
      },
      record { term = rf.current_term; vote_granted = true },
    )
    else (leave rf, record { term = rf.current_term; vote_granted = false })

unfoldable pub request_vote : Raft → RequestVoteArgs → After × RequestVoteReply
unfolding cast_vote
request_vote rf args =
    if ltb args.term rf.current_term
    then (leave rf, record { term = rf.current_term; vote_granted = false })
    else cast_vote
        (if ltb rf.current_term args.term
          then record rf { current_term = args.term; state = follower; voted_for = "" }
          else rf)
        args

unfoldable pub vote_effects : RequestVoteArgs → List String → List Effect
vote_effects args [] = []
vote_effects args (peer ∷ peers) = go_send_request_vote peer args ∷ vote_effects args peers

-- The panics are an empty log, and the nil entry of a log that misses its last index. The counter
-- `votes` of the election starts at 1.
unfoldable pub start_election : Raft → Option After
unfolding vote_effects others
start_election rf = elim (last_index rf.log_store) [
  | none ↦ none
  | some last ↦ elim (get_log rf.log_store last) [
    | none ↦ none
    | some last_log ↦
        let args : RequestVoteArgs = record {
          term = rf.current_term + 1;
          candidate_id = rf.config.id;
          last_log_index = last;
          last_log_term = last_log.term;
        } in
        some (record {
          node = record rf {
            state = candidate;
            current_term = rf.current_term + 1;
            voted_for = rf.config.id;
          };
          effects = vote_effects args (others rf.config.id rf.config.peers);
        })
  ]
]

-- The maps of `convertToLeader`'s loop.
unfoldable pub next_indexes : ℕ → List String → List (String × ℕ) → List (String × ℕ)
next_indexes next [] m = m
next_indexes next (peer ∷ peers) m = next_indexes next peers (insert peer next m)

unfoldable pub match_indexes : List String → List (String × ℤ) → List (String × ℤ)
match_indexes [] m = m
match_indexes (peer ∷ peers) m = match_indexes peers (insert peer (pos 0) m)

unfoldable pub convert_to_leader : Raft → Option After
unfolding next_indexes match_indexes broadcast_heartbeats
convert_to_leader rf =
    if is_leader rf.state then some (leave rf) else elim (last_index rf.log_store) [
      | none ↦ none
      | some last ↦
          let peers = others rf.config.id rf.config.peers in
          some (record {
            node = record rf {
              state = leader;
              next_index = next_indexes (last + 1) peers rf.next_index;
              match_index = match_indexes peers rf.match_index;
            };
            effects = broadcast_heartbeats rf;
          })
    ]

-- The node and the counter that the election's goroutines share.
abbrev pub Counted : Type 0
Counted = After × ℕ

abbrev counted : ℕ → Option After → Option Counted
counted votes none = none
counted votes (some after) = some (after, votes)

-- The critical section of the goroutine of `startElection` that got the reply to a vote request of
-- term `term`, for an election with `votes` votes so far.
unfoldable pub receive_vote : Raft → ℕ → ℕ → RequestVoteReply → Option Counted
unfolding convert_to_leader
receive_vote rf votes term reply =
    if not (is_candidate rf.state) || not (term == rf.current_term)
    then some (leave rf, votes)
    else if ltb rf.current_term reply.term
    then some (convert_to_follower rf reply.term, votes)
    else if reply.vote_granted
    then if ltb (length rf.config.peers / 2) (votes + 1)
      then counted (votes + 1) (convert_to_leader rf)
      else some (leave rf, votes + 1)
    else some (leave rf, votes)

-- The body of `runElectionLoop` for a tick of the election timer.
unfoldable pub election_tick : Raft → Option After
unfolding start_election
election_tick rf =
    if is_leader rf.state
    then some (record { node = rf; effects = reset_election_timer ∷ [] })
    else elim (start_election rf) [
      | none ↦ none
      | some after ↦ some (record after { effects = after.effects ++ reset_election_timer ∷ [] })
    ]

-- The body of `runHeartbeatLoop` for a tick of the heartbeat timer.
unfoldable pub heartbeat_tick : Raft → After
heartbeat_tick rf =
    if is_leader rf.state then record { node = rf; effects = broadcast_heartbeats rf } else leave rf
