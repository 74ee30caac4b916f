-- ===== src/Raft/Cluster/Liveness/Rounds.antt =====
-- internal/raft: a candidate in the first term, and the voters that it hears from one by one.
use raft_recovery.Prelude.{
  ℕ, ◌+◌, ◌/◌, ◌<◌, ◌≤◌, ◌≡◌, inl, inr, refl, ◌∙◌, ap, true, false, Option, none, some, List, [],
  ◌∷◌, String, str_eq, eq_iff, contains, length, arith, ltb, Bool-cases, Option-cases,
}
use raft_recovery.Raft.Log.{last_index}
use raft_recovery.Raft.Node.{
  Raft, After, RequestVoteArgs, RequestVoteReply, leader, candidate, leave,
}
use raft_recovery.Raft.Election.{request_vote, receive_vote, convert_to_leader}
use raft_recovery.Raft.Election.Votes.{request_vote_granted_iff, request_vote_reply}
use raft_recovery.Raft.Cluster.{
  Cluster, deliver, collect, Steps, next, asked, answered, finished, set_node, set_call, set_votes,
}
use raft_recovery.Raft.Cluster.Liveness.Peers.{IsDistinct}

pub self : (p : String) → str_eq p p ≡ true
self p = (eq_iff p p).1 refl

flip : (p q : String) → str_eq p q ≡ false → str_eq q p ≡ false
flip p q h = ground (arith, eq_iff p q, eq_iff q p)

module _ (rf : Raft) (v : ℕ) (reply : RequestVoteReply) (role : rf.state ≡ candidate)
    (term : rf.current_term ≡ 1) (granted : reply.vote_granted ≡ true) (same : reply.term ≡ 1) where
  convert_leads :
      {last : ℕ} {after : After}
      → last_index rf.log_store ≡ some last
      → convert_to_leader rf ≡ some after
      → after.node.state ≡ leader
  unfolding convert_to_leader
  convert_leads {last = last} {after = after} l e = ground (arith, role, l, e)

  converts : {last : ℕ} → last_index rf.log_store ≡ some last → convert_to_leader rf ≡ none → ⊥
  unfolding convert_to_leader
  converts {last = last} l e = ground (arith, role, l, e)

  receive_vote_converts :
      {after : After}
      → ltb (length rf.config.peers / 2) (v + 1) ≡ true
      → convert_to_leader rf ≡ some after
      → receive_vote rf v 1 reply ≡ some (after, v + 1)
  unfolding receive_vote
  receive_vote_converts {after = after} most e = ground (arith, role, term, granted, same, most, e)

  receive_vote_wins :
      {last : ℕ}
      → last_index rf.log_store ≡ some last
      → ltb (length rf.config.peers / 2) (v + 1) ≡ true
      → (after : After) × (receive_vote rf v 1 reply ≡ some (after, v + 1))
        × (after.node.state ≡ leader)
  receive_vote_wins {last = last} l most = elim (Option-cases (convert_to_leader rf)) [
    | inl e ↦ absurd (converts {last = last} l e)
    | inr (after, e) ↦ (
      after,
      receive_vote_converts {after = after} most e,
      convert_leads {last = last} {after = after} l e,
    )
  ]

  receive_vote_counts :
      ltb (length rf.config.peers / 2) (v + 1) ≡ false
      → receive_vote rf v 1 reply ≡ some (leave rf, v + 1)
  unfolding receive_vote
  receive_vote_counts few = ground (arith, role, term, granted, same, few)

-- A voter that is still in term 0 grants a request of term 1.
fresh_grants :
    (rf : Raft) (args : RequestVoteArgs)
    → rf.current_term ≡ 0
    → args.term ≡ 1
    → ((request_vote rf args).1.vote_granted ≡ true) × ((request_vote rf args).1.term ≡ 1)
fresh_grants rf args t u =
    let g = (request_vote_granted_iff rf args).1 (inl (omega arith)) in
    let (a, b, d, r) = request_vote_reply rf args in (g, ground (arith, g, r, u))

module _ (peers : List String) (c : String) where
  -- The candidate c in term 1, with v votes, and the voters that it has still to hear from.
  pub record Standing (s : Cluster) (v : ℕ) (ps : List String) : Type 0 where
    pub role : (s.node c).state ≡ candidate
    pub term : (s.node c).current_term ≡ 1
    pub known : (s.node c).config.peers ≡ peers
    pub stored : (last : ℕ) × (last_index (s.node c).log_store ≡ some last)
    pub tally : s.votes c 1 ≡ v
    pub waits :
        (p : String)
        → contains p ps ≡ true
        → (str_eq c p ≡ false)
          × ((s.node p).current_term ≡ 0)
          × ((args : RequestVoteArgs) × (s.call c 1 p ≡ asked args) × (args.term ≡ 1))

  -- The reply of p is on its way to c.
  abbrev heard : Cluster → String → RequestVoteArgs → Cluster
  heard s p args =
      set_call (set_node s p (request_vote (s.node p) args).0.node) c 1 p
        (answered (request_vote (s.node p) args).1)

  abbrev tallied : Cluster → String → RequestVoteReply → Raft → ℕ → Cluster
  tallied s p reply rf v =
      set_votes (set_call (set_node s c rf) c 1 p (finished reply.vote_granted)) c 1 v

  heard-node :
      (s : Cluster) (p : String) (args : RequestVoteArgs)
      → str_eq c p ≡ false
      → (heard s p args).node c ≡ s.node c
  unfolding set_call set_node
  heard-node s p args apart = rw (flip c p apart) refl

  heard-call :
      (s : Cluster) (p : String) (args : RequestVoteArgs)
      → (heard s p args).call c 1 p ≡ answered (request_vote (s.node p) args).1
  unfolding set_call set_node
  heard-call s p args = rw (self c, self p) refl

  tallied-node :
      (s : Cluster) (p : String) (reply : RequestVoteReply) (rf : Raft) (v : ℕ)
      → (tallied s p reply rf v).node c ≡ rf
  unfolding set_votes set_call set_node
  tallied-node s p reply rf v = rw (self c) refl

  others-node :
      (s : Cluster) (p q : String) (args : RequestVoteArgs) (reply : RequestVoteReply) (rf : Raft)
      (v : ℕ)
      → str_eq c q ≡ false
      → str_eq p q ≡ false
      → (tallied (heard s p args) p reply rf v).node q ≡ s.node q
  unfolding set_votes set_call set_node
  others-node s p q args reply rf v apart differs = rw (apart, differs) refl

  others-call :
      (s : Cluster) (p q : String) (args : RequestVoteArgs) (reply : RequestVoteReply) (rf : Raft)
      (v : ℕ)
      → str_eq p q ≡ false
      → (tallied (heard s p args) p reply rf v).call c 1 q ≡ s.call c 1 q
  unfolding set_votes set_call set_node
  others-call s p q args reply rf v differs = rw (self c, differs) refl

  tallied-votes :
      (s : Cluster) (p : String) (reply : RequestVoteReply) (rf : Raft) (v : ℕ)
      → (tallied s p reply rf v).votes c 1 ≡ v
  unfolding set_votes
  tallied-votes s p reply rf v = rw (self c) refl

  heard-votes :
      (s : Cluster) (p : String) (args : RequestVoteArgs) → (heard s p args).votes c 1 ≡ s.votes c 1
  unfolding set_call set_node
  heard-votes s p args = refl

  differs_of :
      (p q : String) (ps : List String)
      → contains p ps ≡ false
      → contains q ps ≡ true
      → str_eq p q ≡ false
  differs_of p q ps new h = grind (arith, eq_iff p q)

  -- The other voters are as before.
  round-Standing :
      (s : Cluster) (v : ℕ) (p : String) (ps : List String) (args : RequestVoteArgs)
      (reply : RequestVoteReply)
      → contains p ps ≡ false
      → Standing s v (p ∷ ps)
      → Standing (tallied (heard s p args) p reply (s.node c) (v + 1)) (v + 1) ps
  unfolding contains
  round-Standing s v p ps args reply new n =
      let same = tallied-node (heard s p args) p reply (s.node c) (v + 1) in
      record {
        role = ap (λ rf. rf.state) same ∙ n.role;
        term = ap (λ rf. rf.current_term) same ∙ n.term;
        known = ap (λ rf. rf.config.peers) same ∙ n.known;
        stored = (n.stored.0, ap (λ rf. last_index rf.log_store) same ∙ n.stored.1);
        tally = tallied-votes (heard s p args) p reply (s.node c) (v + 1);
        waits = λ q h.
            let (apart, early, (args', sent, t)) = n.waits q (ground (arith, h)) in
            let differs = differs_of p q ps new h in
            (
              apart,
              ap (λ rf. rf.current_term)
                    (others-node s p q args reply (s.node c) (v + 1) apart differs)
                  ∙ early,
              (args', others-call s p q args reply (s.node c) (v + 1) differs ∙ sent, t),
            );
      }

  -- With enough voters left to hear from, the candidate comes to lead.
  pub comes_to_lead :
      {s0 : Cluster} (s : Cluster) (v : ℕ) (ps : List String)
      → Steps peers s0 s
      → IsDistinct ps
      → Standing s v ps
      → v ≤ length peers / 2
      → length peers / 2 < v + length ps
      → (s' : Cluster) × Steps peers s0 s' × ((s'.node c).state ≡ leader)
  unfolding contains
  comes_to_lead s v [] run d n few enough = absurd (omega arith)
  comes_to_lead {s0 = s0} s v (p ∷ ps) run d n few enough =
      let (apart, early, (args, sent, t)) = n.waits p (ground (arith, self p)) in
      let reply = (request_vote (s.node p) args).1 in
      let (granted, same) = fresh_grants (s.node p) args early t in
      let delivered : Steps peers s0 (heard s p args) =
        next run (deliver c p 1 {args = args} sent) in
      let votes = heard-votes s p args ∙ n.tally in
      let collected : (o : Option (After × ℕ))
          → receive_vote (s.node c) v 1 reply ≡ o
          → receive_vote ((heard s p args).node c) ((heard s p args).votes c 1) 1 reply ≡ o =
        λ o e.
          ap (λ rf. receive_vote rf ((heard s p args).votes c 1) 1 reply)
            (heard-node s p args apart)
          ∙ ap (λ w. receive_vote (s.node c) w 1 reply) votes
          ∙ e in
      elim (Bool-cases (ltb (length (s.node c).config.peers / 2) (v + 1))) [
        | inl most ↦
            let (after, e, lead) =
              receive_vote_wins (s.node c) v reply n.role n.term granted same {last = n.stored.0}
                n.stored.1 most in
            (
              tallied (heard s p args) p reply after.node (v + 1),
              next delivered (
                  collect c p 1 {reply = reply} {after = after} {votes' = v + 1}
                    (heard-call s p args) (collected _ e)),
              ap (λ rf. rf.state) (tallied-node (heard s p args) p reply after.node (v + 1)) ∙ lead,
            )
        | inr minority ↦
            comes_to_lead (tallied (heard s p args) p reply (s.node c) (v + 1)) (v + 1) ps
              (next delivered (
                collect c p 1 {reply = reply} {after = leave (s.node c)} {votes' = v + 1}
                  (heard-call s p args)
                  (collected _
                    (receive_vote_counts (s.node c) v reply n.role n.term granted same minority))))
              d.1 (round-Standing s v p ps args reply d.0 n)
              (ground (arith, minority, ap length n.known)) (omega arith)
      ]
