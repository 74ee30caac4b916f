-- ===== src/Raft/Election/Votes.antt =====
-- internal/raft/rpc.go and raft.go: who gets a vote, and what it takes to lead.
use raft_recovery.Prelude.{
  ℕ, ◌+◌, ◌*◌, ◌≤◌, ◌<◌, ◌≡◌, ◌≢◌, ◌↔◌, ◌⊎◌, inl, inr, refl, true, false, some, length, arith,
  eq_iff, ltb,
}
use raft_recovery.Raft.Node.{
  Raft, After, RequestVoteArgs, RequestVoteReply, leader, candidate, convert_to_follower,
}
use raft_recovery.Raft.Election.{request_vote, receive_vote}

module _ (rf : Raft) (args : RequestVoteArgs) where
  -- A vote is granted exactly when the request is of a later term, or of the node's term and the node
  -- has not voted in it, or has voted for this candidate. The logs play no part.
  pub request_vote_granted_iff : ((request_vote rf args).1.vote_granted ≡ true) ↔ (
      (rf.current_term < args.term)
      ⊎ ((rf.current_term ≡ args.term)
          × ((rf.voted_for ≡ "") ⊎ (rf.voted_for ≡ args.candidate_id))))
  unfolding request_vote
  request_vote_granted_iff = (
    (λ h. ground (arith, eq_iff rf.voted_for "", eq_iff rf.voted_for args.candidate_id)),
    λ h. granted h,
  )
    where
      granted :
          ((rf.current_term < args.term)
            ⊎ ((rf.current_term ≡ args.term)
                × ((rf.voted_for ≡ "") ⊎ (rf.voted_for ≡ args.candidate_id))))
          → (request_vote rf args).1.vote_granted ≡ true
      granted (inl later) =
          let a : ltb args.term rf.current_term ≡ false = ground arith in
          let b : ltb rf.current_term args.term ≡ true = ground arith in
          rw (a, b, (eq_iff "" "").1 refl) refl
      granted (inr (same, vote)) =
          let a : ltb args.term rf.current_term ≡ false = ground arith in
          let b : ltb rf.current_term args.term ≡ false = ground arith in
          rw (a, b) (ground (arith, eq_iff rf.voted_for "", eq_iff rf.voted_for args.candidate_id))

  -- The reply carries the term that the node has afterwards, which is the greater of the two; with a
  -- vote granted this is the request's term, and the node's vote is recorded for the candidate.
  pub request_vote_reply :
      let (after, reply) = request_vote rf args in
      (reply.term ≡ after.node.current_term)
      × (args.term ≤ reply.term)
      × (rf.current_term ≤ reply.term)
      × ((reply.vote_granted ≡ false)
          ⊎ ((reply.term ≡ args.term) × (after.node.voted_for ≡ args.candidate_id)))
  unfolding request_vote
  request_vote_reply =
      ground (arith, eq_iff "" "", eq_iff rf.voted_for "", eq_iff rf.voted_for args.candidate_id)

-- After a vote was granted to a candidate with a name that is not empty, a request of the same term
-- by another candidate is refused.
pub request_vote_once :
    (rf : Raft) (args args' : RequestVoteArgs)
    → (request_vote rf args).1.vote_granted ≡ true
    → args'.term ≡ args.term
    → args.candidate_id ≢ ""
    → args'.candidate_id ≢ args.candidate_id
    → (request_vote ((request_vote rf args).0.node) args').1.vote_granted ≡ false
unfolding request_vote
request_vote_once rf args args' g t ne other = ground (
  arith,
  eq_iff "" "",
  eq_iff rf.voted_for "",
  eq_iff rf.voted_for args.candidate_id,
  eq_iff args.candidate_id "",
  eq_iff args.candidate_id args'.candidate_id,
)

-- A node that was not leader and is leader after the reply to a vote request was candidate in the term
-- of its election, which is still its term; the vote was granted, and the counter, one higher, is then
-- more than half the peers.
pub receive_vote_leads :
    (rf : Raft) (votes term : ℕ) (reply : RequestVoteReply) {after : After} {votes' : ℕ}
    → receive_vote rf votes term reply ≡ some (after, votes')
    → rf.state ≢ leader
    → after.node.state ≡ leader
    → (rf.state ≡ candidate)
      × (rf.current_term ≡ term)
      × (after.node.current_term ≡ term)
      × (reply.vote_granted ≡ true)
      × (votes' ≡ votes + 1)
      × (length rf.config.peers < 2 * votes')
unfolding receive_vote convert_to_follower
receive_vote_leads rf votes term reply e h l = ground arith
