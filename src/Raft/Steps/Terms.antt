-- ===== src/Raft/Steps/Terms.antt =====
-- internal/raft: terms, votes, roles and the commit index over the steps of a node.
use raft_recovery.Prelude.{
  ℕ, ◌+◌, ◌<◌, ◌≡◌, ◌≢◌, refl, ◌⊎◌, inl, inr, none, some, List, [], ◌∷◌, arith, Option-cases,
}
use raft_recovery.Raft.Node.{
  Raft, After, RequestVoteReply, follower, candidate, leader, convert_to_follower,
}
use raft_recovery.Raft.Election.{receive_vote, election_tick}
use raft_recovery.Raft.Steps.Quiet.{KeepsVote, Quiet, step-Quiet, of_node, of_node_pair}
use raft_recovery.Raft.Steps.{
  Input, vote_request, append_request, election_timeout, heartbeat_timeout, apply_committed,
  vote_reply, append_reply, proposal, compaction, step, run,
}

-- A change of role: none, to follower in a later term, to candidate in the next term with a vote
-- for itself, or from candidate to leader in the same term.
abbrev pub RoleMove : Raft → Raft → Type 0
RoleMove rf rf' =
    ((rf'.state ≡ rf.state) × (rf'.current_term ≡ rf.current_term))
    ⊎ ((rf'.state ≡ follower) × (rf.current_term < rf'.current_term))
    ⊎ ((rf.state ≢ leader)
        × (rf'.state ≡ candidate)
        × (rf'.current_term ≡ rf.current_term + 1)
        × (rf'.voted_for ≡ rf.config.id))
    ⊎ ((rf.state ≡ candidate) × (rf'.state ≡ leader) × (rf'.current_term ≡ rf.current_term))

abbrev pub Advances : Raft → Raft → Type 0
Advances rf rf' = KeepsVote rf rf' × RoleMove rf rf' × (rf'.config ≡ rf.config)

pub Quiet-Advances : (rf rf' : Raft) → Quiet rf rf' → Advances rf rf'
Quiet-Advances rf rf' q = ground arith

pub election_tick-Advances :
    (rf : Raft) {after : After} → election_tick rf ≡ some after → Advances rf after.node
unfolding election_tick
election_tick-Advances rf e = ground arith

pub receive_vote-Advances :
    (rf : Raft) (votes term : ℕ) (reply : RequestVoteReply) {after : After} {votes' : ℕ}
    → receive_vote rf votes term reply ≡ some (after, votes')
    → Advances rf after.node
unfolding receive_vote convert_to_follower
receive_vote-Advances rf votes term reply e = ground arith

pub step-Advances :
    (rf : Raft) (input : Input) {rf' : Raft} → step rf input ≡ some rf' → Advances rf rf'
step-Advances rf (vote_request args) {rf' = n} e =
    Quiet-Advances rf n (step-Quiet rf (vote_request args) refl e)
step-Advances rf (append_request args) {rf' = n} e =
    Quiet-Advances rf n (step-Quiet rf (append_request args) refl e)
step-Advances rf election_timeout e =
    unfold step in of_node (Advances rf) (election_tick rf) (λ a h. election_tick-Advances rf h) e
step-Advances rf heartbeat_timeout {rf' = n} e =
    Quiet-Advances rf n (step-Quiet rf heartbeat_timeout refl e)
step-Advances rf apply_committed {rf' = n} e =
    Quiet-Advances rf n (step-Quiet rf apply_committed refl e)
step-Advances rf (vote_reply votes term reply) e =
    unfold step in
    of_node_pair (Advances rf) (receive_vote rf votes term reply)
      (λ a b h. receive_vote-Advances rf votes term reply h) e
step-Advances rf (append_reply peer args reply) {rf' = n} e =
    Quiet-Advances rf n (step-Quiet rf (append_reply peer args reply) refl e)
step-Advances rf (proposal command) {rf' = n} e =
    Quiet-Advances rf n (step-Quiet rf (proposal command) refl e)
step-Advances rf (compaction index) {rf' = n} e =
    Quiet-Advances rf n (step-Quiet rf (compaction index) refl e)

-- In every step a node's term does not fall, and within a term its vote, once cast, does not change.
pub step-KeepsVote :
    (rf : Raft) (input : Input) {rf' : Raft} → step rf input ≡ some rf' → KeepsVote rf rf'
step-KeepsVote rf input {rf' = n} e = (step-Advances rf input e).0

-- The roles change only in these ways: any role to follower, in a later term; follower or candidate
-- to candidate, in the next term and with a vote for itself; candidate to leader, in the same term.
pub step-RoleMove :
    (rf : Raft) (input : Input) {rf' : Raft} → step rf input ≡ some rf' → RoleMove rf rf'
step-RoleMove rf input {rf' = n} e = (step-Advances rf input e).1

KeepsVote-trans : (a b c : Raft) → KeepsVote a b → KeepsVote b c → KeepsVote a c
KeepsVote-trans a b c h k = grind arith

-- Over any run of steps that does not panic a node's term does not fall, and a vote that it has cast
-- stays its vote as long as the term lasts.
pub run-KeepsVote :
    (rf : Raft) (inputs : List Input) {rf' : Raft} → run rf inputs ≡ some rf' → KeepsVote rf rf'
unfolding run
run-KeepsVote rf [] e = ground arith
run-KeepsVote rf (input ∷ inputs) {rf' = last} e = elim (Option-cases (step rf input)) [
  | inl panic ↦ absurd (stuck panic)
  | inr (mid, s) ↦
      KeepsVote-trans rf mid last (step-KeepsVote rf input s)
        (run-KeepsVote mid inputs {rf' = last} (ground arith))
]
  where
    stuck : step rf input ≡ none → ⊥
    stuck panic = ground arith
