-- ===== src/Raft/Cluster/Invariant/Moves.antt =====
-- internal/raft: each part of a step keeps the tie of votes and elections.
use raft_recovery.Prelude.{
  ℕ, ◌<◌, ◌≤◌, ◌≡◌, ◌≢◌, ◌⊎◌, inl, inr, refl, Bool, true, false, Option, none, some, List, String,
  str_eq, eq_iff, contains, arith, ◌&&◌, ◌==◌, subst, if_case,
}
use native.Mathlib.Nat.{le_trans}
use raft_recovery.Raft.Node.{Raft, RequestVoteArgs, Effect}
use raft_recovery.Raft.Steps.Quiet.{KeepsVote}
use raft_recovery.Raft.Cluster.{
  Call, Cluster, idle, asked, answered, finished, set_node, set_call, set_calls, set_votes,
  request_to,
}
use raft_recovery.Raft.Cluster.Quorum.{count, count-le}
use raft_recovery.Raft.Cluster.Invariant.{
  granted, Sent, IsSound, is_counted, supports, IsTallied, Won,
}

abbrev asked_or : Call → Option RequestVoteArgs → Call
asked_or call o = elim o [ none ↦ call | some args ↦ asked args ]

pub named_of :
    (peers : List String) (c : String)
    → contains "" peers ≡ false
    → contains c peers ≡ true
    → c ≢ ""
named_of peers c names m e = cc

module _ (peers : List String) (s : Cluster) (v : IsTallied peers s) (p : String) (rf : Raft)
    (kept : KeepsVote (s.node p) rf) where
  -- A vote that a node has cast stays in the history.
  pub vote_in-set_node :
      (q : String) (t : ℕ) (c : String)
      → c ≢ ""
      → s.vote_in q t ≡ c
      → (set_node s p rf).vote_in q t ≡ c
  unfolding set_node
  vote_in-set_node q t c named h = ground (arith, eq_iff p q, v.now p, v.later p t, named)

  pub term-set_node :
      (q : String) → (s.node q).current_term ≤ ((set_node s p rf).node q).current_term
  unfolding set_node
  term-set_node q = ground (arith, eq_iff p q)

  Sent-set_node :
      (c : String) (t : ℕ) (q : String)
      → c ≢ ""
      → Sent peers s c t q
      → Sent peers (set_node s p rf) c t q
  Sent-set_node c t q named h =
      (h.0, h.1, h.2, omega (arith, term-set_node c, h.3), vote_in-set_node c t c named h.4)

  voted-set_node :
      (c : String) (t : ℕ) (q : String) (b : Bool)
      → c ≢ ""
      → (b ≡ false) ⊎ (s.vote_in q t ≡ c)
      → (b ≡ false) ⊎ ((set_node s p rf).vote_in q t ≡ c)
  voted-set_node c t q b named (inl no_vote) = inl no_vote
  voted-set_node c t q b named (inr vote) = inr (vote_in-set_node q t c named vote)

  IsSound-set_node :
      (names : contains "" peers ≡ false) (c : String) (t : ℕ) (q : String) (call : Call)
      → IsSound peers s c t q call
      → IsSound peers (set_node s p rf) c t q call
  IsSound-set_node names c t q idle h = tt
  IsSound-set_node names c t q (asked args) h =
      (h.0, h.1, Sent-set_node c t q (named_of peers c names h.2.1) h.2)
  IsSound-set_node names c t q (answered reply) h =
      let named = named_of peers c names h.1.1 in
      (voted-set_node c t q reply.vote_granted named h.0, Sent-set_node c t q named h.1)
  IsSound-set_node names c t q (finished yes_vote) h =
      let named = named_of peers c names h.1.1 in
      (voted-set_node c t q yes_vote named h.0, Sent-set_node c t q named h.1)

  own_vote-set_node :
      (names : contains "" peers ≡ false) (c : String) (t : ℕ)
      → (s.votes c t ≡ 0) ⊎ ((s.vote_in c t ≡ c) × (contains c peers ≡ true))
      → (s.votes c t ≡ 0) ⊎ (((set_node s p rf).vote_in c t ≡ c) × (contains c peers ≡ true))
  own_vote-set_node names c t (inl no_votes) = inl no_votes
  own_vote-set_node names c t (inr (vote, m)) =
      inr (vote_in-set_node c t c (named_of peers c names m) vote, m)

  config-set_node :
      (same : rf.config ≡ (s.node p).config) (q : String)
      → ((set_node s p rf).node q).config ≡ record { id = q; peers = peers }
  unfolding set_node
  config-set_node same q = ground (arith, eq_iff p q, v.config q)

  now-set_node :
      (q : String)
      → (set_node s p rf).vote_in q ((set_node s p rf).node q).current_term
        ≡ ((set_node s p rf).node q).voted_for
  unfolding set_node
  now-set_node q = ground (arith, eq_iff p q, v.now q)

  later-set_node :
      (q : String) (t : ℕ)
      → ((set_node s p rf).node q).current_term < t
      → (set_node s p rf).vote_in q t ≡ ""
  unfolding set_node
  later-set_node q t h = ground (arith, eq_iff p q, v.later q t)

  pub set_node-IsTallied :
      rf.config ≡ (s.node p).config → contains "" peers ≡ false → IsTallied peers (set_node s p rf)
  set_node-IsTallied same names = record {
    config = config-set_node same;
    now = now-set_node;
    later = later-set_node;
    calls = λ c t q. unfold set_node in IsSound-set_node names c t q (s.call c t q) (v.calls c t q);
    tally = λ c t. unfold set_node in v.tally c t;
    own_vote = λ c t. unfold set_node in own_vote-set_node names c t (v.own_vote c t);
  }

  pub Won-set_node : (c : String) (t : ℕ) → Won peers s c t → Won peers (set_node s p rf) c t
  Won-set_node c t (named, majority) =
      let more = count-le (supports s c t) (supports (set_node s p rf) c t) peers (λ q. ground (
        arith,
        eq_iff (s.vote_in q t) c,
        eq_iff ((set_node s p rf).vote_in q t) c,
        vote_in-set_node q t c named,
      )) in
      (named, omega (arith, more))

module _ (peers : List String) (s : Cluster) (v : IsTallied peers s) (c : String) (t : ℕ) where
  place :
      (p c' : String) (t' : ℕ) (p' : String)
      → (str_eq c c' && ((t' == t) && str_eq p p')) ≡ true
      → (c ≡ c') × (t ≡ t') × (p ≡ p')
  place p c' t' p' e = ground (arith, eq_iff c c', eq_iff p p')

  pub counted-set_call :
      (p : String) (call : Call)
      → granted (s.call c t p) ≡ false
      → (c' : String) (t' : ℕ) (q : String)
      → (is_counted s c' t' q ≡ false) ⊎ (is_counted (set_call s c t p call) c' t' q ≡ true)
  unfolding set_call
  counted-set_call p call old c' t' q = ground (arith, eq_iff c c', eq_iff p q)

  IsSound-set_call :
      (p : String) (call : Call)
      → IsSound peers s c t p call
      → (c' : String) (t' : ℕ) (p' : String)
      → IsSound peers s c' t' p' ((set_call s c t p call).call c' t' p')
  unfolding set_call
  IsSound-set_call p call h c' t' p' =
      if_case (IsSound peers s c' t' p') (str_eq c c' && ((t' == t) && str_eq p p'))
        (λ e.
          let there = place p c' t' p' e in
          subst (λ x. IsSound peers s x t' p' call) there.0
            (subst (λ x. IsSound peers s c x p' call) there.1
              (subst (λ x. IsSound peers s c t x call) there.2 h)))
        (λ e. v.calls c' t' p')

  pub set_call-IsTallied :
      (p : String) (call : Call)
      → granted (s.call c t p) ≡ false
      → IsSound peers s c t p call
      → IsTallied peers (set_call s c t p call)
  set_call-IsTallied p call old h = record {
    config = unfold set_call in v.config;
    now = unfold set_call in v.now;
    later = unfold set_call in v.later;
    calls = unfold set_call in IsSound-set_call p call h;
    tally = λ c' t'.
        let more =
          count-le (is_counted s c' t') (is_counted (set_call s c t p call) c' t') peers
            (counted-set_call p call old c' t') in
        unfold set_call in le_trans (v.tally c' t') more;
    own_vote = unfold set_call in v.own_vote;
  }

  pub set_votes-IsTallied :
      (votes : ℕ)
      → votes ≤ count (is_counted s c t) peers
      → s.vote_in c t ≡ c
      → contains c peers ≡ true
      → IsTallied peers (set_votes s c t votes)
  unfolding set_votes
  set_votes-IsTallied votes h own m = record {
    config = v.config;
    now = v.now;
    later = v.later;
    calls = v.calls;
    tally = λ c' t'. ground (arith, eq_iff c c', v.tally c' t');
    own_vote = λ c' t'. ground (arith, eq_iff c c', v.own_vote c' t');
  }

  -- The goroutines of a new election, which are idle before.
  module _ (effects : List Effect) (before : (p : String) → s.call c t p ≡ idle)
      (sent : (p : String) (args : RequestVoteArgs)
        → request_to p effects ≡ some args
        → IsSound peers s c t p (asked args)) where
    election : (c' : String) (t' : ℕ) → (str_eq c c' && (t' == t)) ≡ true → (c ≡ c') × (t ≡ t')
    election c' t' e = ground (arith, eq_iff c c')

    IsSound-asked :
        (p : String) (o : Option RequestVoteArgs)
        → request_to p effects ≡ o
        → IsSound peers s c t p (asked_or (s.call c t p) o)
    IsSound-asked p none e = v.calls c t p
    IsSound-asked p (some args) e = sent p args e

    IsSound-set_calls :
        (c' : String) (t' : ℕ) (p' : String)
        → IsSound peers s c' t' p' ((set_calls s c t effects).call c' t' p')
    unfolding set_calls
    IsSound-set_calls c' t' p' =
        if_case (IsSound peers s c' t' p') (str_eq c c' && (t' == t))
          (λ e.
            let there = election c' t' e in
            subst (λ x. IsSound peers s x t' p' (asked_or (s.call x t' p') (request_to p' effects)))
              there.0
              (subst
                (λ x. IsSound peers s c x p' (asked_or (s.call c x p') (request_to p' effects)))
                there.1 (IsSound-asked p' (request_to p' effects) refl)))
          (λ e. v.calls c' t' p')

    counted-set_calls :
        (c' : String) (t' : ℕ) (q : String)
        → (is_counted s c' t' q ≡ false) ⊎ (is_counted (set_calls s c t effects) c' t' q ≡ true)
    unfolding set_calls
    counted-set_calls c' t' q = ground (arith, eq_iff c c', before q)

    pub set_calls-IsTallied : IsTallied peers (set_calls s c t effects)
    unfolding set_calls
    set_calls-IsTallied = record {
      config = v.config;
      now = v.now;
      later = v.later;
      calls = IsSound-set_calls;
      tally = λ c' t'.
          let more =
            count-le (is_counted s c' t') (is_counted (set_calls s c t effects) c' t') peers
              (counted-set_calls c' t') in
          le_trans (v.tally c' t') more;
      own_vote = v.own_vote;
    }
