-- ===== src/Raft/Cluster/Invariant/Collecting.antt =====
-- internal/raft: a reply to a request for a vote keeps the tie of votes and elections, and a node that it
-- makes leader has won its term.
use raft_recovery.Prelude.{
  ℕ, ◌+◌, ◌≤◌, ◌≡◌, ◌≢◌, ◌⊎◌, inl, inr, refl, sym, ap, true, false, some, List, String, str_eq,
  eq_iff, contains, length, arith, subst, Bool-cases,
}
use raft_recovery.Raft.Node.{State, After, Config, RequestVoteReply, leader, candidate, follower}
use raft_recovery.Raft.Election.{receive_vote}
use raft_recovery.Raft.Election.Votes.{receive_vote_leads}
use raft_recovery.Raft.Steps.Terms.{receive_vote-Advances}
use raft_recovery.Raft.Cluster.{
  Call, Cluster, idle, asked, answered, finished, set_node, set_call, set_votes,
}
use raft_recovery.Raft.Cluster.Quorum.{count, count-le, count-lt}
use raft_recovery.Raft.Cluster.Votes.{receive_vote-votes}
use raft_recovery.Raft.Cluster.Invariant.{granted, IsSound, is_counted, supports, IsTallied, Won}
use raft_recovery.Raft.Cluster.Invariant.Moves.{
  named_of, counted-set_call, set_node-IsTallied, set_call-IsTallied, set_votes-IsTallied,
  Won-set_node,
}
use raft_recovery.Raft.Cluster.Invariant.Elections.{Led, call-set_node}

State-cases : (x : State) → (x ≡ leader) ⊎ (x ≢ leader)
State-cases leader = inl refl
State-cases follower = inr (λ e. cc)
State-cases candidate = inr (λ e. cc)

granted_votes :
    (peers : List String) (s : Cluster) (c : String) (t : ℕ) (q : String) (call : Call)
    → IsSound peers s c t q call
    → (granted call ≡ false) ⊎ (s.vote_in q t ≡ c)
granted_votes peers s c t q idle h = inl refl
granted_votes peers s c t q (asked args) h = inl refl
granted_votes peers s c t q (answered reply) h = inl refl
granted_votes peers s c t q (finished yes_vote) h = h.0

module _ (peers : List String) (names : contains "" peers ≡ false) (s : Cluster)
    (v : IsTallied peers s) (led : Led peers s) where
  -- A reply to a request for a vote.
  module _ (c p : String) (t : ℕ) (reply : RequestVoteReply) (after : After) (votes' : ℕ)
      (h : s.call c t p ≡ answered reply)
      (e : receive_vote (s.node c) (s.votes c t) t reply ≡ some (after, votes')) where
    abbrev pub counted : Cluster
    counted = set_call (set_node s c after.node) c t p (finished reply.vote_granted)

    moved-IsTallied : IsTallied peers (set_node s c after.node)
    moved-IsTallied =
        let a =
          receive_vote-Advances (s.node c) (s.votes c t) t reply {after = after} {votes' = votes'}
            e in
        set_node-IsTallied peers s v c after.node a.0 a.2 names

    reply_sound : IsSound peers (set_node s c after.node) c t p (answered reply)
    reply_sound =
        subst (IsSound peers (set_node s c after.node) c t p)
          (call-set_node peers names s v led c after.node c t p (answered reply) h)
          (moved-IsTallied.calls c t p)

    counted-IsTallied : IsTallied peers counted
    counted-IsTallied =
        set_call-IsTallied peers (set_node s c after.node) moved-IsTallied c t p
          (finished reply.vote_granted)
          (ap granted (call-set_node peers names s v led c after.node c t p (answered reply) h))
          reply_sound

    tally_kept : s.votes c t ≤ count (is_counted counted c t) peers
    unfolding set_node set_call
    tally_kept = counted-IsTallied.tally c t

    answer_kept : granted ((set_node s c after.node).call c t p) ≡ false
    answer_kept =
        ap granted (call-set_node peers names s v led c after.node c t p (answered reply) h)

    new_vote : reply.vote_granted ≡ true → is_counted counted c t p ≡ true
    unfolding set_call
    new_vote yes_vote = ground (arith, eq_iff c c, eq_iff p p)

    tally_grown : reply.vote_granted ≡ true → s.votes c t + 1 ≤ count (is_counted counted c t) peers
    tally_grown yes_vote =
        let before : s.votes c t ≤ count (is_counted (set_node s c after.node) c t) peers =
          unfold set_node in moved-IsTallied.tally c t in
        let more =
          count-lt (is_counted (set_node s c after.node) c t) (is_counted counted c t) peers p
            (counted-set_call peers (set_node s c after.node) moved-IsTallied c t p
              (finished reply.vote_granted) answer_kept c t)
            reply_sound.1.0 (ground (arith, eq_iff c p, eq_iff p c, answer_kept, reply_sound.1.2))
            (new_vote yes_vote) in
        omega (arith, before, more)

    votes-le-counted : votes' ≤ count (is_counted counted c t) peers
    votes-le-counted =
        elim (receive_vote-votes (s.node c) (s.votes c t) t reply {after = after} {votes' = votes'}
          e) [
            | inl same ↦ subst (λ n. n ≤ count (is_counted counted c t) peers) (sym same) tally_kept
            | inr (more, yes_vote) ↦ omega (arith, more, tally_grown yes_vote)
          ]

    own_kept : counted.vote_in c t ≡ c
    unfolding set_call
    own_kept = reply_sound.1.4

    -- Who is counted has its vote for the candidate.
    counted-supports :
        (q : String) → (is_counted counted c t q ≡ false) ⊎ (supports counted c t q ≡ true)
    counted-supports q = elim (Bool-cases (str_eq c q)) [
      | inl own ↦ inr (
          subst (λ x. supports counted c t x ≡ true) ((eq_iff c q).0 own) ((eq_iff _ _).1 own_kept))
      | inr ne ↦
          elim (granted_votes peers counted c t q (counted.call c t q)
            (counted-IsTallied.calls c t q)) [
              | inl no_vote ↦ inl (ground arith)
              | inr vote ↦ inr ((eq_iff _ _).1 vote)
            ]
    ]

    pub collect-IsTallied : IsTallied peers (set_votes counted c t votes')
    collect-IsTallied =
        set_votes-IsTallied peers counted counted-IsTallied c t votes' votes-le-counted own_kept
          reply_sound.1.1

    -- A node that these votes make leader has won its term.
    pub collect_leader :
        after.node.state ≡ leader → Won peers (set_node s c after.node) c after.node.current_term
    collect_leader lead = elim (State-cases (s.node c).state) [
      | inl was ↦
          let a =
            receive_vote-Advances (s.node c) (s.votes c t) t reply {after = after} {votes' = votes'}
              e in
          let same : after.node.current_term ≡ (s.node c).current_term = ground arith in
          subst (Won peers (set_node s c after.node) c) (sym same)
            (Won-set_node peers s v c after.node a.0 c (s.node c).current_term (led c was))
      | inr was_not ↦
          let r =
            receive_vote_leads (s.node c) (s.votes c t) t reply {after = after} {votes' = votes'} e
              was_not lead in
          let all = ap (λ (x : Config). length x.peers) (v.config c) in
          let backed =
            count-le (is_counted counted c t) (supports counted c t) peers counted-supports in
          subst (Won peers (set_node s c after.node) c) (sym r.2) (
            named_of peers c names reply_sound.1.1,
            unfold set_call in omega (arith, r.5, all, votes-le-counted, backed),
          )
    ]
