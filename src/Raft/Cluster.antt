-- ===== src/Raft/Cluster.antt =====
-- internal/raft: the nodes of a cluster and the goroutines that ask for votes. A goroutine of
-- `startElection` is named by its candidate, its term and its peer: a term has at most one election of
-- a candidate, and the peers of a configuration are distinct. A node is the one that its peers know
-- under its own identifier. Replication is open: any request or reply of it may come at any time. A
-- call that is lost just never goes on. No node restarts: the source keeps term and vote in memory.
pub mod Quorum
pub mod Votes
pub mod Invariant
pub mod Safety
pub mod Liveness
pub mod Alone
pub mod Logs
use raft_recovery.Prelude.{
  ℕ, ◌≡◌, Bool, true, false, Option, none, some, List, [], ◌∷◌, String, str_eq, contains,
  if◌then◌else◌, ◌==◌, ◌&&◌,
}
use raft_recovery.Raft.Log.{new_memory_log_store}
use raft_recovery.Raft.Node.{
  Raft, Config, After, Effect, RequestVoteArgs, RequestVoteReply, is_leader, new_raft,
  go_send_request_vote,
}
use raft_recovery.Raft.Election.{start_election, request_vote, receive_vote}
use raft_recovery.Raft.Steps.{Input, step}
use raft_recovery.Raft.Steps.Quiet.{is_election}

-- Where a goroutine of `startElection` stands: not started, its request on the way, the reply on the
-- way, or done, with what the reply granted.
pub data Call : Type 0 where
  idle : Call
  asked : RequestVoteArgs → Call
  answered : RequestVoteReply → Call
  finished : Bool → Call

-- `votes` is the counter that the goroutines of one election share. `vote_in` is only a history: the
-- vote that a node has, or had when it was in the term.
pub record Cluster : Type 0 where
  pub node : String → Raft
  pub call : String → ℕ → String → Call
  pub votes : String → ℕ → ℕ
  pub vote_in : String → ℕ → String

-- The cluster with node p after a critical section.
unfoldable pub set_node : Cluster → String → Raft → Cluster
set_node s p rf = record s {
  node = λ q. if str_eq p q then rf else s.node q;
  vote_in = λ q t. if str_eq p q && (t == rf.current_term) then rf.voted_for else s.vote_in q t;
}

unfoldable pub set_call : Cluster → String → ℕ → String → Call → Cluster
set_call s c t p call = record s {
  call = λ c' t' p'. if str_eq c c' && ((t' == t) && str_eq p p') then call else s.call c' t' p';
}

unfoldable pub set_votes : Cluster → String → ℕ → ℕ → Cluster
set_votes s c t votes = record s {
  votes = λ c' t'. if str_eq c c' && (t' == t) then votes else s.votes c' t';
}

-- The request that a list of effects sends to a peer.
unfoldable pub request_to : String → List Effect → Option RequestVoteArgs
request_to p [] = none
request_to p (go_send_request_vote q args ∷ effects) =
    let rest = request_to p effects in if str_eq q p then some args else rest
request_to p (effect ∷ effects) = request_to p effects

-- The goroutines of an election of c, as `startElection` starts them.
unfoldable pub set_calls : Cluster → String → ℕ → List Effect → Cluster
set_calls s c t effects = record s {
  call = λ c' t' p'.
      if str_eq c c' && (t' == t)
      then (elim (request_to p' effects) [ none ↦ s.call c' t' p' | some args ↦ asked args ])
      else s.call c' t' p';
}

module _ (peers : List String) where
  -- A critical section of one node.
  pub data Step (s : Cluster) : Cluster → Type 0 where
    campaign :
        (c : String) {after : After}
        → contains c peers ≡ true
        → is_leader (s.node c).state ≡ false
        → start_election (s.node c) ≡ some after
        → Step s (
            set_votes
              (set_calls (set_node s c after.node) c after.node.current_term after.effects)
              c
              after.node.current_term
              1)
    deliver :
        (c p : String) (t : ℕ) {args : RequestVoteArgs}
        → s.call c t p ≡ asked args
        → Step s (
            set_call
              (set_node s p (request_vote (s.node p) args).0.node)
              c
              t
              p
              (answered (request_vote (s.node p) args).1))
    collect :
        (c p : String) (t : ℕ) {reply : RequestVoteReply} {after : After} {votes' : ℕ}
        → s.call c t p ≡ answered reply
        → receive_vote (s.node c) (s.votes c t) t reply ≡ some (after, votes')
        → Step s (
            set_votes
              (set_call (set_node s c after.node) c t p (finished reply.vote_granted))
              c
              t
              votes')
    other :
        (p : String) (input : Input) {rf' : Raft}
        → contains p peers ≡ true
        → is_election input ≡ false
        → step (s.node p) input ≡ some rf'
        → Step s (set_node s p rf')

  pub data Steps (s : Cluster) : Cluster → Type 0 where
    here : Steps s s
    next : {t u : Cluster} → Steps s t → Step t u → Steps s u

  -- New nodes, before any of their timers is due.
  abbrev pub fresh : Cluster
  fresh = record {
    node = λ p. new_raft (record { id = p; peers = peers }) new_memory_log_store;
    call = λ c t p. idle;
    votes = λ c t. 0;
    vote_in = λ p t. "";
  }
