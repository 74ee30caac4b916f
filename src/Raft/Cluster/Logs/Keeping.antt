-- ===== src/Raft/Cluster/Logs/Keeping.antt =====
-- internal/raft: every move of a cluster keeps the tie of the logs to the leaders'.
use raft_recovery.Prelude.{
  ℕ, zero, suc, ◌≡◌, refl, sym, ap, subst, ◌∙◌, some, true, false, ◌∷◌, get_elem?, arith, inl, inr,
  ◌⊎◌, List, String, str_eq, eq_iff, contains, Bool-cases,
}
use mathlib.Core.Option.{some-injective}
use raft_recovery.Raft.Node.{Raft, After, AppendEntriesArgs, is_leader, others, Config}
use raft_recovery.Raft.Election.{request_vote, start_election}
use raft_recovery.Raft.Replication.{replicate_request}
use raft_recovery.Raft.Steps.{Input}
use raft_recovery.Raft.Steps.Quiet.{request_vote-Quiet}
use raft_recovery.Raft.Steps.Terms.{RoleMove, Quiet-Advances, receive_vote-Advances, step-Advances}
use raft_recovery.Raft.Cluster.{
  Cluster, Step, campaign, deliver, collect, other, set_node, set_call, set_calls, set_votes,
}
use raft_recovery.Raft.Cluster.Votes.{start_election-Election, contains-others}
use raft_recovery.Raft.Cluster.Invariant.{IsTallied, Won}
use raft_recovery.Raft.Cluster.Invariant.Elections.{Led}
use raft_recovery.Raft.Cluster.Safety.{Step-Led, Won-Step}
use raft_recovery.Raft.Cluster.Logs.{World, Reaches, IsClosed, mover, moved}
use raft_recovery.Raft.Cluster.Logs.Inputs.{
  Change, kept, appends, proposes, step-Change, request_vote-log, start_election-log,
  receive_vote-log,
}
use raft_recovery.Raft.Cluster.Logs.Invariant.{Matched, Fitting, Part}
use raft_recovery.Raft.Cluster.Logs.Acting.{moved-Matched}
use raft_recovery.Raft.Cluster.Logs.Acts.{kept-Fitting, proposed-Fitting, appended-Fitting}
use raft_recovery.Raft.Cluster.Logs.Requests.{sent-Part}

node-set_node : (s : Cluster) (p : String) (rf : Raft) → (set_node s p rf).node p ≡ rf
unfolding set_node
node-set_node s p rf = ground (arith, eq_iff p p)

node-set_node_other :
    (s : Cluster) (p : String) (rf : Raft) (q : String)
    → (q ≡ p) ⊎ ((set_node s p rf).node q ≡ s.node q)
unfolding set_node
node-set_node_other s p rf q = elim (Bool-cases (str_eq p q)) [
  | inl same ↦ inl (sym ((eq_iff p q).0 same))
  | inr apart ↦ inr (rw apart refl)
]

stood-RoleMove :
    (rf : Raft) {after : After}
    → is_leader rf.state ≡ false
    → start_election rf ≡ some after
    → RoleMove rf after.node
stood-RoleMove rf {after} idle e =
    let n = start_election-Election rf {after = after} e in
    inr (inr (inl (λ lead. ground (arith, lead), n.role, n.term, ground (arith, n.vote))))

module _ (peers : List String) (names : contains "" peers ≡ false) (w : World) (k : Matched peers w)
    (v : IsTallied peers w.cluster) (led : Led peers w.cluster) where
  -- A step that leaves the node p as rf'.
  module _ {s' : Cluster} (st : Step peers w.cluster s') (p : String) (rf' : Raft)
      (at : s'.node p ≡ rf') (rest_stay : (q : String) → (q ≡ p) ⊎ (s'.node q ≡ w.cluster.node q))
      (move : RoleMove (w.cluster.node p) rf') where
    led' : Led peers s'
    led' = (Step-Led peers names st v led).1

    move' : RoleMove (w.cluster.node p) (s'.node p)
    move' = subst (RoleMove (w.cluster.node p)) (sym at) move

    step_keeps : Fitting w (s'.node p) → Matched peers (moved w s' p)
    step_keeps fit =
        moved-Matched peers names w k s' p rest_stay led' (Won-Step peers names st v) move' fit

    keeps_log : rf'.log_store ≡ (w.cluster.node p).log_store → Matched peers (moved w s' p)
    keeps_log same = step_keeps (
        kept-Fitting peers names w k s' p led' (Won-Step peers names st v) move'
          (ap (λ (n : Raft). n.log_store) at ∙ same))

    changes_log :
        (input : Input)
        → Reaches w.sent p input
        → Change (w.cluster.node p) rf' input
        → Matched peers (moved w s' p)
    changes_log input r (kept same) = keeps_log same
    changes_log input r (appends args {after} {reply} asked e now) =
        let (i, sent) = subst (Reaches w.sent p) asked r in
        step_keeps (
          appended-Fitting peers names w k s' p led' (Won-Step peers names st v) move' i args
            {after = after} {reply = reply} sent e (now ∙ sym at))
    changes_log input r (proposes last command l lead log same) = step_keeps (
        proposed-Fitting peers names w k s' p led' (Won-Step peers names st v) move' last command l
          lead (ap (λ (n : Raft). n.log_store) at ∙ log)
          (ap (λ (n : Raft). n.current_term) at ∙ same))

  pub acted :
      {s' : Cluster} (st : Step peers w.cluster s')
      → IsClosed w.sent st
      → Matched peers (moved w s' (mover st))
  acted (campaign c {after} m idle e) closed =
      unfold set_votes set_calls in
      keeps_log (campaign c {after = after} m idle e) c after.node
        (node-set_node w.cluster c after.node) (node-set_node_other w.cluster c after.node)
        (stood-RoleMove (w.cluster.node c) {after = after} idle e)
        (start_election-log (w.cluster.node c) {after = after} e)
  acted (deliver c p t {args} h) closed =
      let rf' = (request_vote (w.cluster.node p) args).0.node in
      unfold set_call in
      keeps_log (deliver c p t {args = args} h) p rf' (node-set_node w.cluster p rf')
        (node-set_node_other w.cluster p rf')
        (Quiet-Advances (w.cluster.node p) rf' (request_vote-Quiet (w.cluster.node p) args)).1
        (request_vote-log (w.cluster.node p) args)
  acted (collect c p t {reply} {after} {votes'} h e) closed =
      unfold set_votes set_call in
      keeps_log (collect c p t {reply = reply} {after = after} {votes' = votes'} h e) c after.node
        (node-set_node w.cluster c after.node) (node-set_node_other w.cluster c after.node)
        (receive_vote-Advances (w.cluster.node c) (w.cluster.votes c t) t reply {after = after}
          {votes' = votes'} e).1
        (receive_vote-log (w.cluster.node c) (w.cluster.votes c t) t reply {after = after}
          {votes' = votes'} e)
  acted (other p input {rf'} m q e) closed =
      changes_log (other p input {rf' = rf'} m q e) p rf' (node-set_node w.cluster p rf')
        (node-set_node_other w.cluster p rf')
        (step-Advances (w.cluster.node p) input {rf' = rf'} e).1 input closed
        (step-Change (w.cluster.node p) input {rf' = rf'} q
          (λ index cut. subst (Reaches w.sent p) cut closed) e)

  -- Without an act the nodes stay, and the new request is for a part of the log of its term.
  pub requested :
      (c peer : String) {args : AppendEntriesArgs}
      → contains peer (others c peers) ≡ true
      → replicate_request (w.cluster.node c) peer ≡ some (some args)
      → Matched peers (record w { sent = (peer, args) ∷ w.sent })
  requested c peer {args} m e =
      let (lead, term, by_leader, part) =
        sent-Part (w.cluster.node c) peer {args = args} (k.contiguous c) e in
      let named : args.leader_id ≡ c = by_leader ∙ ap (λ (x : Config). x.id) (v.config c) in
      record {
        contiguous = k.contiguous;
        agrees = k.agrees;
        whole = k.whole;
        current = k.current;
        owner = k.owner;
        role = k.role;
        fits = fits (
          subst (λ t. Won peers w.cluster args.leader_id t) (sym term)
              (subst (λ x. Won peers w.cluster x (w.cluster.node c).current_term) (sym named)
                (led c lead)),
          subst (λ x. str_eq peer x ≡ false) (sym named) (contains-others c peer peers m).1,
          subst (λ l. Part l args) (sym (ap w.log_of term ∙ k.current c lead)) part,
        );
      }
    where
      fits :
          Won peers w.cluster args.leader_id args.term
            × (str_eq peer args.leader_id ≡ false)
            × Part (w.log_of args.term) args
          → (i : ℕ) (to : String) (asked : AppendEntriesArgs)
          → get_elem? ((peer, args) ∷ w.sent) i ≡ some (to, asked)
          → Won peers w.cluster asked.leader_id asked.term
            × (str_eq to asked.leader_id ≡ false)
            × Part (w.log_of asked.term) asked
      fits new zero to asked h =
          let same : ◌≡◌ {A = String × AppendEntriesArgs} (peer, args) (to, asked) =
            some-injective _ _ h in
          subst
            (λ (x : String × AppendEntriesArgs).
              Won peers w.cluster x.1.leader_id x.1.term
              × (str_eq x.0 x.1.leader_id ≡ false)
              × Part (w.log_of x.1.term) x.1)
            same new
      fits new (suc i) to asked h = k.fits i to asked h
