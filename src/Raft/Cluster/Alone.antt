-- ===== src/Raft/Cluster/Alone.antt =====
-- internal/raft: a cluster of one node.
mod Tests
use raft_recovery.Prelude.{
  ◌≡◌, ◌≢◌, refl, subst, ap, sym, ◌∙◌, Bool, true, false, List, [], ◌∷◌, String, str_eq, eq_iff,
  contains, arith, Bool-cases, inl, inr, ℕ, if◌then◌else◌,
}
use raft_recovery.Raft.Node.{
  Raft, After, State, leader, candidate, follower, new_raft, RequestVoteArgs, RequestVoteReply,
}
use raft_recovery.Raft.Election.{start_election}
use raft_recovery.Raft.Steps.Quiet.{Quiet, step-Quiet}
use raft_recovery.Raft.Cluster.{
  Call, Cluster, Step, campaign, deliver, collect, other, Steps, here, next, fresh, idle, asked,
  answered, finished, set_node, set_call, set_calls, set_votes,
}
use raft_recovery.Raft.Cluster.Votes.{start_election-Election}
use raft_recovery.Raft.Cluster.Invariant.{IsTallied, IsSound, Sent}
use raft_recovery.Raft.Cluster.Safety.{Steps-Led}

candidate-ne : candidate ≡ leader → ⊥
candidate-ne e = cc

module _ (only : String) where
  nobody_asked : (s : Cluster) (c : String) (t : ℕ) (p : String) → Sent (only ∷ []) s c t p → ⊥
  unfolding contains
  nobody_asked s c t p sent = ground (arith, sent, eq_iff only p, eq_iff only c, eq_iff p c)

  state-set_node :
      (s : Cluster) (p q : String) (rf : Raft)
      → rf.state ≢ leader
      → (s.node q).state ≢ leader
      → ((set_node s p rf).node q).state ≢ leader
  unfolding set_node
  state-set_node s p q rf new old = elim (Bool-cases (str_eq p q)) [
    | inl same ↦ rw same new
    | inr apart ↦ rw apart old
  ]

  unled_after : (rf rf' : Raft) → Quiet rf rf' → rf.state ≢ leader → rf'.state ≢ leader
  unled_after rf rf' q old lead = ground arith

  stays_unled :
      {s s' : Cluster}
      → Step (only ∷ []) s s'
      → IsTallied (only ∷ []) s
      → ((p : String) → (s.node p).state ≢ leader)
      → (p : String) → (s'.node p).state ≢ leader
  stays_unled {s} (campaign c {after} m not_leader e) v unled p =
      unfold set_votes set_calls in
      state-set_node s c p after.node
        (λ lead.
          candidate-ne (sym (start_election-Election (s.node c) {after = after} e).role ∙ lead))
        (unled p)
  stays_unled {s} (deliver c q t {args} h) v unled p =
      absurd (nobody_asked s c t q (subst (IsSound (only ∷ []) s c t q) h (v.calls c t q)).2)
  stays_unled {s} (collect c q t {reply} {after} {votes'} h e) v unled p =
      absurd (nobody_asked s c t q (subst (IsSound (only ∷ []) s c t q) h (v.calls c t q)).1)
  stays_unled {s} (other q input {rf'} m quiet e) v unled p =
      state-set_node s q p rf'
        (unled_after (s.node q) rf' (step-Quiet (s.node q) input {rf' = rf'} quiet e) (unled q))
        (unled p)

-- A new node that is its own only peer, under a name that is not empty, never leads, whatever steps it
-- takes.
pub alone_unled :
    (only : String) {s : Cluster}
    → contains "" (only ∷ []) ≡ false
    → Steps (only ∷ []) (fresh (only ∷ [])) s
    → (s.node only).state ≢ leader
unfolding new_raft
alone_unled only names run = go run only
  where
    go :
        {s : Cluster}
        → Steps (only ∷ []) (fresh (only ∷ [])) s
        → (p : String) → (s.node p).state ≢ leader
    go here p = λ lead. cc
    go (next r st) p = stays_unled only st ((Steps-Led (only ∷ []) names r).0) (go r) p
