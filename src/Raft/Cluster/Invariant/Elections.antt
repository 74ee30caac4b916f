-- ===== src/Raft/Cluster/Invariant/Elections.antt =====
-- internal/raft: a campaign and the answer to a request for a vote keep the tie of votes and elections,
-- and what a node that leads keeps.
use raft_recovery.Prelude.{
  ℕ, ◌<◌, ◌≡◌, ◌⊎◌, inl, inr, refl, sym, ◌∙◌, ap, true, false, some, List, String, str_eq, eq_iff,
  contains, arith, subst, if_case,
}
use raft_recovery.Raft.Node.{Raft, After, Config, RequestVoteArgs, leader}
use raft_recovery.Raft.Election.{request_vote, start_election}
use raft_recovery.Raft.Election.Votes.{request_vote_reply}
use raft_recovery.Raft.Steps.Quiet.{KeepsVote, Quiet, request_vote-Quiet}
use raft_recovery.Raft.Cluster.{
  Call, Cluster, idle, asked, answered, finished, set_node, set_call, set_calls, set_votes,
  request_to,
}
use raft_recovery.Raft.Cluster.Quorum.{count_pos}
use raft_recovery.Raft.Cluster.Votes.{start_election-Election}
use raft_recovery.Raft.Cluster.Invariant.{granted, IsSound, IsTallied, Won}
use raft_recovery.Raft.Cluster.Invariant.Moves.{
  set_node-IsTallied, set_call-IsTallied, set_calls-IsTallied, set_votes-IsTallied, Won-set_node,
}

-- Every leader has won its term.
abbrev pub Led : List String → Cluster → Type 0
Led peers s = (c : String) → (s.node c).state ≡ leader → Won peers s c (s.node c).current_term

module _ (peers : List String) (names : contains "" peers ≡ false) (s : Cluster)
    (v : IsTallied peers s) (led : Led peers s) where
  node-set_node : (p : String) (rf : Raft) → (set_node s p rf).node p ≡ rf
  unfolding set_node
  node-set_node p rf = ground (arith, eq_iff p p)

  pub Led-set_node :
      (p : String) (rf : Raft)
      → KeepsVote (s.node p) rf
      → (rf.state ≡ leader → Won peers (set_node s p rf) p rf.current_term)
      → Led peers (set_node s p rf)
  unfolding set_node
  Led-set_node p rf kept new c =
      if_case (λ (r : Raft). r.state ≡ leader → Won peers (set_node s p rf) c r.current_term)
        (str_eq p c)
        (λ e l.
          subst (λ x. Won peers (set_node s p rf) x rf.current_term) ((eq_iff p c).0 e) (new l))
        (λ e l. Won-set_node peers s v p rf kept c (s.node c).current_term (led c l))

  pub still_leader :
      (p : String) (rf : Raft)
      → Quiet (s.node p) rf
      → rf.state ≡ leader
      → Won peers (set_node s p rf) p rf.current_term
  still_leader p rf q lead =
      let same : ((s.node p).state ≡ leader) × (rf.current_term ≡ (s.node p).current_term) =
        ground arith in
      subst (Won peers (set_node s p rf) p) (sym same.1)
        (Won-set_node peers s v p rf q.0 p (s.node p).current_term (led p same.0))

  vote-set_node :
      (p : String) (rf : Raft) → (set_node s p rf).vote_in p rf.current_term ≡ rf.voted_for
  unfolding set_node
  vote-set_node p rf = ground (arith, eq_iff p p)

  pub call-set_node :
      (p : String) (rf : Raft) (c : String) (t : ℕ) (q : String) (call : Call)
      → s.call c t q ≡ call
      → (set_node s p rf).call c t q ≡ call
  unfolding set_node
  call-set_node p rf c t q call h = h

  -- A vote that is granted is in the history afterwards.
  deliver_vote :
      (c p : String) (t : ℕ) (args : RequestVoteArgs)
      → args.term ≡ t
      → args.candidate_id ≡ c
      → ((request_vote (s.node p) args).1.vote_granted ≡ false)
        ⊎ ((set_node s p (request_vote (s.node p) args).0.node).vote_in p t ≡ c)
  deliver_vote c p t args term who = elim (request_vote_reply (s.node p) args).3 [
    | inl no_vote ↦ inl no_vote
    | inr (replied, voted) ↦
        let now = vote-set_node p (request_vote (s.node p) args).0.node in
        let same : (request_vote (s.node p) args).0.node.current_term ≡ t =
          sym (request_vote_reply (s.node p) args).0 ∙ replied ∙ term in
        inr (
          ap ((set_node s p (request_vote (s.node p) args).0.node).vote_in p) (sym same)
          ∙ now
          ∙ voted
          ∙ who)
  ]

  pub deliver-IsTallied :
      (c p : String) (t : ℕ) (args : RequestVoteArgs)
      → s.call c t p ≡ asked args
      → IsTallied peers (
          set_call
            (set_node s p (request_vote (s.node p) args).0.node)
            c
            t
            p
            (answered (request_vote (s.node p) args).1))
  deliver-IsTallied c p t args h =
      let rf' = (request_vote (s.node p) args).0.node in
      let q = request_vote-Quiet (s.node p) args in
      let v' = set_node-IsTallied peers s v p rf' q.0 q.2 names in
      let h' = call-set_node p rf' c t p (asked args) h in
      let sound : IsSound peers (set_node s p rf') c t p (asked args) =
        subst (IsSound peers (set_node s p rf') c t p) h' (v'.calls c t p) in
      set_call-IsTallied peers (set_node s p rf') v' c t p
        (answered (request_vote (s.node p) args).1) (ap granted h')
        (deliver_vote c p t args sound.0 sound.1, sound.2)

  -- A goroutine of a later term has not started.
  later_idle :
      (c : String) (t : ℕ) (p : String) (call : Call)
      → IsSound peers s c t p call
      → (s.node c).current_term < t
      → call ≡ idle
  later_idle c t p idle h k = refl
  later_idle c t p (asked args) h k = absurd (omega (arith, h.2.3))
  later_idle c t p (answered reply) h k = absurd (omega (arith, h.1.3))
  later_idle c t p (finished yes_vote) h k = absurd (omega (arith, h.1.3))

  -- A new election: its goroutines are idle, and the node has its own vote.
  pub campaign-IsTallied :
      (c : String) {after : After}
      → contains c peers ≡ true
      → start_election (s.node c) ≡ some after
      → IsTallied peers (
          set_votes
            (set_calls (set_node s c after.node) c after.node.current_term after.effects)
            c
            after.node.current_term
            1)
  campaign-IsTallied c {after = after} m e =
      let n = start_election-Election (s.node c) {after = after} e in
      let rf' = after.node in
      let kept : KeepsVote (s.node c) rf' = inl (ground (arith, n.term)) in
      let v' = set_node-IsTallied peers s v c rf' kept n.identity names in
      let t = rf'.current_term in
      let own : (set_node s c rf').vote_in c t ≡ c =
        vote-set_node c rf' ∙ n.vote ∙ ap (λ (x : Config). x.id) (v.config c) in
      let sent : (p : String) (args : RequestVoteArgs)
          → request_to p after.effects ≡ some args
          → IsSound peers (set_node s c rf') c t p (asked args) =
        λ p args h.
          let r = n.sent p args h in
          let place = v.config c in
          (
            r.0 ∙ sym n.term,
            r.1 ∙ ap (λ (x : Config). x.id) place,
            (
              subst (λ (x : Config). contains p x.peers ≡ true) place r.2,
              m,
              subst (λ (x : Config). str_eq p x.id ≡ false) place r.3,
              ground (arith, node-set_node c rf'),
              own,
            ),
          ) in
      let v'' =
        set_calls-IsTallied peers (set_node s c rf') v' c t after.effects
          (λ p.
            call-set_node c rf' c t p idle
              (later_idle c t p (s.call c t p) (v.calls c t p) (ground (arith, n.term))))
          sent in
      set_votes-IsTallied peers (set_calls (set_node s c rf') c t after.effects) v'' c t 1
        (count_pos _ peers c m (ground (arith, eq_iff c c))) (unfold set_calls in own) m
