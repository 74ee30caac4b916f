-- ===== src/Raft/Cluster/Safety.antt =====
-- internal/raft: a term has at most one leader.
mod Tests
use raft_recovery.Prelude.{
  ℕ, suc, ◌+◌, ◌*◌, ◌<◌, ◌≤◌, ◌≡◌, ◌≢◌, ◌⊎◌, inl, inr, refl, sym, ◌∙◌, ap, Bool, true, false,
  Option, none, some, List, [], ◌∷◌, String, str_eq, eq_iff, contains, length, arith, if◌then◌else◌,
  ◌||◌, ◌&&◌, ◌==◌, subst, Bool-cases, Option-cases, if_case,
}
use raft_recovery.Raft.Node.{
  Raft, State, After, Config, RequestVoteArgs, RequestVoteReply, Effect, leader, candidate,
  follower, is_leader, new_raft,
}
use raft_recovery.Raft.Election.{request_vote, receive_vote, start_election}
use raft_recovery.Raft.Election.Votes.{request_vote_reply, receive_vote_leads}
use raft_recovery.Raft.Steps.Quiet.{KeepsVote, Quiet, step-Quiet, request_vote-Quiet}
use raft_recovery.Raft.Steps.Terms.{receive_vote-Advances}
use raft_recovery.Raft.Cluster.{
  Call, Cluster, Step, campaign, deliver, collect, other, Steps, here, next, fresh, idle, asked,
  answered, finished, set_node, set_call, set_calls, set_votes, request_to,
}
use raft_recovery.Raft.Cluster.Quorum.{count, count-le, count-lt, count_pos, count_meet}
use raft_recovery.Raft.Cluster.Votes.{Election, start_election-Election, receive_vote-votes}
use raft_recovery.Raft.Cluster.Invariant.{granted, IsSound, is_counted, supports, IsTallied, Won}
use raft_recovery.Raft.Cluster.Invariant.Moves.{
  named_of, counted-set_call, vote_in-set_node, set_node-IsTallied, set_call-IsTallied,
  set_calls-IsTallied, set_votes-IsTallied, Won-set_node,
}
use raft_recovery.Raft.Cluster.Invariant.Elections.{
  Led, Led-set_node, still_leader, deliver-IsTallied, campaign-IsTallied,
}
use raft_recovery.Raft.Cluster.Invariant.Collecting.{collect-IsTallied, collect_leader}

candidate_leads : (after : After) → after.node.state ≡ candidate → after.node.state ≡ leader → ⊥
candidate_leads after r l = cc

module _ (peers : List String) (names : contains "" peers ≡ false) where
  pub Step-Led :
      {s s' : Cluster}
      → Step peers s s'
      → IsTallied peers s
      → Led peers s
      → IsTallied peers s' × Led peers s'
  Step-Led {s} (campaign c {after} m idle_leader e) v led =
      let n = start_election-Election (s.node c) {after = after} e in
      (
        campaign-IsTallied peers names s v led c {after = after} m e,
        unfold set_votes set_calls in
            Led-set_node peers names s v led c after.node (inl (ground (arith, n.term)))
              (λ l. absurd (candidate_leads after n.role l)),
      )
  Step-Led {s} (deliver c p t {args} h) v led =
      let q = request_vote-Quiet (s.node p) args in
      (
        deliver-IsTallied peers names s v led c p t args h,
        unfold set_call in
            Led-set_node peers names s v led p ((request_vote (s.node p) args).0.node) q.0
              (still_leader peers names s v led p ((request_vote (s.node p) args).0.node) q),
      )
  Step-Led {s} (collect c p t {reply} {after} {votes'} h e) v led =
      let a =
        receive_vote-Advances (s.node c) (s.votes c t) t reply {after = after} {votes' = votes'}
          e in
      (
        collect-IsTallied peers names s v led c p t reply after votes' h e,
        unfold set_votes set_call in
            Led-set_node peers names s v led c after.node a.0
              (collect_leader peers names s v led c p t reply after votes' h e),
      )
  Step-Led {s} (other p input {rf'} m q e) v led =
      let k = step-Quiet (s.node p) input {rf' = rf'} q e in
      (
        set_node-IsTallied peers s v p rf' k.0 k.2 names,
        Led-set_node peers names s v led p rf' k.0 (still_leader peers names s v led p rf' k),
      )

  -- What a node has won stays won.
  pub Won-Step :
      {s s' : Cluster}
      → Step peers s s'
      → IsTallied peers s
      → (a : String) (t : ℕ) → Won peers s a t
      → Won peers s' a t
  Won-Step {s} (campaign c {after} m not_leader e) v a t w =
      let n = start_election-Election (s.node c) {after = after} e in
      unfold set_votes set_calls in
      Won-set_node peers s v c after.node (inl (ground (arith, n.term))) a t w
  Won-Step {s} (deliver c p t' {args} h) v a t w =
      unfold set_call in
      Won-set_node peers s v p ((request_vote (s.node p) args).0.node)
        (request_vote-Quiet (s.node p) args).0 a t w
  Won-Step {s} (collect c p t' {reply} {after} {votes'} h e) v a t w =
      let moved =
        receive_vote-Advances (s.node c) (s.votes c t') t' reply {after = after} {votes' = votes'}
          e in
      unfold set_votes set_call in Won-set_node peers s v c after.node moved.0 a t w
  Won-Step {s} (other p input {rf'} m q e) v a t w =
      Won-set_node peers s v p rf' (step-Quiet (s.node p) input {rf' = rf'} q e).0 a t w

  fresh-IsTallied : IsTallied peers (fresh peers)
  unfolding new_raft
  fresh-IsTallied = record {
    config = λ p. refl;
    now = λ p. refl;
    later = λ p t h. refl;
    calls = λ c t p. tt;
    tally = λ c t. omega arith;
    own_vote = λ c t. inl refl;
  }

  fresh-Led : Led peers (fresh peers)
  unfolding new_raft
  fresh-Led c l = cc

  pub Steps-Led : {s : Cluster} → Steps peers (fresh peers) s → IsTallied peers s × Led peers s
  Steps-Led here = (fresh-IsTallied, fresh-Led)
  Steps-Led (next r st) = let (v, led) = Steps-Led r in Step-Led st v led

  Steps-Won :
      {s s' : Cluster}
      → Steps peers (fresh peers) s
      → Steps peers s s'
      → (a : String) (t : ℕ) → Won peers s a t
      → (IsTallied peers s' × Led peers s') × Won peers s' a t
  Steps-Won r here a t w = (Steps-Led r, w)
  Steps-Won r (next q st) a t w =
      let ((v, led), w') = Steps-Won r q a t w in (Step-Led st v led, Won-Step st v a t w')

  pub Won-unique : (s : Cluster) (a b : String) (t : ℕ) → Won peers s a t → Won peers s b t → a ≡ b
  Won-unique s a b t (named, most) (named', most') =
      let (p, for_a, for_b) = count_meet (supports s a t) (supports s b t) peers (omega arith) in
      sym ((eq_iff _ _).0 for_a) ∙ (eq_iff _ _).0 for_b

-- A cluster of new nodes with the same peers, none of which has the empty name, in which every node that
-- asks for votes is a peer: in whatever order requests, replies, timers and replication go on, and
-- whatever is lost, two nodes that lead in the same term, at the same time or one after the other, are
-- the same node.
pub one_leader :
    (peers : List String) {s s' : Cluster} (a b : String)
    → contains "" peers ≡ false
    → Steps peers (fresh peers) s
    → Steps peers s s'
    → (s.node a).state ≡ leader
    → (s'.node b).state ≡ leader
    → (s.node a).current_term ≡ (s'.node b).current_term
    → a ≡ b
one_leader peers {s} {s'} a b names r q lead lead' same =
    let (v, led) = Steps-Led peers names r in
    let ((v', led'), won) = Steps-Won peers names r q a (s.node a).current_term (led a lead) in
    Won-unique peers names s' a b (s.node a).current_term won
      (subst (Won peers s' b) (sym same) (led' b lead'))
