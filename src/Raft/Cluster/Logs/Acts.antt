-- ===== src/Raft/Cluster/Logs/Acts.antt =====
-- internal/raft: each kind of critical section, as one that keeps the tie of the logs to the leaders'.
use raft_recovery.Prelude.{
  ℕ, ◌+◌, ◌<◌, ◌≡◌, ◌≢◌, refl, sym, ap, subst, ◌∙◌, some, false, [], ◌∷◌, ◌++◌, get_elem?, arith,
  inl, inr, ◌⊎◌, List, String, str_eq, eq_iff, contains, length, take,
}
use raft_recovery.Raft.Log.{Log, LogEntry, last_index}
use raft_recovery.Raft.Log.Contiguous.{Contiguous, Contiguous-append, Contiguous-take}
use raft_recovery.Raft.Node.{
  Raft, After, AppendEntriesArgs, AppendEntriesReply, leader, follower, candidate,
}
use raft_recovery.Raft.Replication.{append_entries}
use raft_recovery.Raft.Steps.Terms.{RoleMove}
use raft_recovery.Raft.Cluster.{Cluster}
use raft_recovery.Raft.Cluster.Invariant.{Won}
use raft_recovery.Raft.Cluster.Invariant.Elections.{Led}
use raft_recovery.Raft.Cluster.Safety.{Won-unique}
use raft_recovery.Raft.Cluster.Logs.{World, note_leader}
use raft_recovery.Raft.Cluster.Logs.Agreement.{
  append_nil, Agrees, Agrees-extended, Agrees-matching, Agrees-take, Agrees-snoc,
}
use raft_recovery.Raft.Cluster.Logs.Entries.{start_of}
use raft_recovery.Raft.Cluster.Logs.Inputs.{append_entries-log, last_index-length}
use raft_recovery.Raft.Cluster.Logs.Invariant.{
  Matched, Fitting, note_leader-own, note_leader-Extends,
}

assoc : (pre es fs : Log) → pre ++ (es ++ fs) ≡ (pre ++ es) ++ fs
assoc [] es fs = refl
assoc (p ∷ pre) es fs = ap (λ l. p ∷ l) (assoc pre es fs)

-- How a leader came to lead.
leader_before :
    (rf rf' : Raft)
    → RoleMove rf rf'
    → rf'.state ≡ leader
    → (rf'.current_term ≡ rf.current_term) × ((rf.state ≡ leader) ⊎ (rf.state ≡ candidate))
leader_before rf rf' move lead = ground arith

stays_leader :
    (rf rf' : Raft)
    → RoleMove rf rf'
    → rf.state ≡ leader
    → rf'.current_term ≡ rf.current_term
    → rf'.state ≡ leader
stays_leader rf rf' move lead same = ground arith

candidate_term :
    (rf : Raft)
    → rf.state ≡ candidate
    → (rf.state ≡ follower) ⊎ (0 < rf.current_term)
    → 0 < rf.current_term
candidate_term rf c h = ground arith

not_owned :
    (rf : Raft)
    → rf.state ≡ candidate
    → (rf.current_term < rf.current_term)
      ⊎ ((rf.current_term ≡ rf.current_term) × (rf.state ≡ leader))
    → ⊥
not_owned rf c h = ground arith

module _ (peers : List String) (names : contains "" peers ≡ false) (w : World) (k : Matched peers w)
    (s' : Cluster) (p : String) (led' : Led peers s')
    (won : (a : String) (t : ℕ) → Won peers w.cluster a t → Won peers s' a t)
    (move : RoleMove (w.cluster.node p) (s'.node p)) where
  -- A term that a candidate comes to lead has no log yet.
  unled :
      (s'.node p).state ≡ leader
      → (s'.node p).current_term ≡ (w.cluster.node p).current_term
      → (w.cluster.node p).state ≡ candidate
      → w.log_of (w.cluster.node p).current_term ≡ []
  unled lead same stood =
      let t = (w.cluster.node p).current_term in
      elim (k.owner t (candidate_term (w.cluster.node p) stood (k.role p))) [
        | inl none_yet ↦ none_yet
        | inr (c, wins, h) ↦
            let one : c ≡ p =
              Won-unique peers names s' c p t (won c t wins)
                (subst (Won peers s' p) same (led' p lead)) in
            absurd (
              not_owned (w.cluster.node p) stood (
                subst
                  (λ x.
                    (t < (w.cluster.node x).current_term)
                    ⊎ (((w.cluster.node x).current_term ≡ t) × ((w.cluster.node x).state ≡ leader)))
                  one h))
      ]

  kept_grown :
      (s'.node p).log_store ≡ (w.cluster.node p).log_store
      → (s'.node p).state ≡ leader
      → (more : Log) × ((s'.node p).log_store ≡ w.log_of (s'.node p).current_term ++ more)
  kept_grown same lead =
      let (at, before) = leader_before (w.cluster.node p) (s'.node p) move lead in
      elim before [
        | inl led ↦ (
          [],
          same
              ∙ sym (k.current p led)
              ∙ ap w.log_of (sym at)
              ∙ append_nil (w.log_of (s'.node p).current_term),
        )
        | inr stood ↦ (
          (w.cluster.node p).log_store,
          same
              ∙ ap (λ l. l ++ (w.cluster.node p).log_store)
                  (sym (ap w.log_of at ∙ unled lead at stood)),
        )
      ]

  pub kept-Fitting : (s'.node p).log_store ≡ (w.cluster.node p).log_store → Fitting w (s'.node p)
  kept-Fitting same = record {
    grown = kept_grown same;
    contiguous = subst (Contiguous 0) (sym same) (k.contiguous p);
    agrees =
        Agrees-extended w.log_of (note_leader w.log_of (s'.node p)) (s'.node p).log_store
          (note_leader-Extends w.log_of (s'.node p) (kept_grown same))
          (subst (Agrees w.log_of) (sym same) (k.agrees p));
  }

  pub proposed-Fitting :
      (last : ℕ) (command : String)
      → last_index (w.cluster.node p).log_store ≡ some last
      → (w.cluster.node p).state ≡ leader
      → (s'.node p).log_store
        ≡ (w.cluster.node p).log_store
          ++ record { term = (w.cluster.node p).current_term; index = last + 1; command = command }
            ∷ []
      → (s'.node p).current_term ≡ (w.cluster.node p).current_term
      → Fitting w (s'.node p)
  proposed-Fitting last command l lead log same =
      let x : LogEntry = record {
        term = (w.cluster.node p).current_term;
        index = last + 1;
        command = command;
      } in
      let leads = stays_leader (w.cluster.node p) (s'.node p) move lead same in
      let grown : (s'.node p).log_store ≡ w.log_of (s'.node p).current_term ++ x ∷ [] =
        log
        ∙ ap (λ e. e ++ x ∷ []) (sym (k.current p lead))
        ∙ ap (λ t. w.log_of t ++ x ∷ []) (sym same) in
      let len = last_index-length (w.cluster.node p).log_store last (k.contiguous p) l in
      record {
        grown = λ _. (x ∷ [], grown);
        contiguous = subst (Contiguous 0) (sym log) (
            Contiguous-append 0 (w.cluster.node p).log_store (x ∷ []) (k.contiguous p)
              (omega (arith, len), tt));
        agrees = subst (Agrees (note_leader w.log_of (s'.node p))) (sym log) (
            Agrees-snoc (note_leader w.log_of (s'.node p)) (w.cluster.node p).log_store x
              (Agrees-extended w.log_of (note_leader w.log_of (s'.node p))
                (w.cluster.node p).log_store
                (note_leader-Extends w.log_of (s'.node p) (λ _. (x ∷ [], grown))) (k.agrees p))
              (ap (note_leader w.log_of (s'.node p)) (sym same)
                ∙ note_leader-own w.log_of (s'.node p) leads
                ∙ log));
      }

  -- The log up to the end of a request for another node than its leader.
  taken-Fitting :
      (args : AppendEntriesArgs) (pre rest : Log)
      → w.log_of args.term ≡ (pre ++ args.entries) ++ rest
      → Won peers w.cluster args.leader_id args.term
      → str_eq p args.leader_id ≡ false
      → (s'.node p).log_store ≡ pre ++ args.entries
      → (s'.node p).current_term ≡ args.term
      → Fitting w (s'.node p)
  taken-Fitting args pre rest parts wins apart log at =
      let follows : (s'.node p).state ≢ leader = λ lead.
        let one : p ≡ args.leader_id =
          Won-unique peers names s' p args.leader_id args.term
            (subst (Won peers s' p) at (led' p lead)) (won args.leader_id args.term wins) in
        ground (arith, one, eq_iff p args.leader_id) in
      let start : (s'.node p).log_store ≡ take (length (pre ++ args.entries)) (w.log_of args.term) =
        log ∙ sym (start_of (w.log_of args.term) (pre ++ args.entries) rest parts) in
      record {
        grown = λ lead. absurd (follows lead);
        contiguous = subst (Contiguous 0) (sym start) (
            Contiguous-take 0 (length (pre ++ args.entries)) (w.log_of args.term)
              (k.whole args.term).0);
        agrees = subst (Agrees (note_leader w.log_of (s'.node p))) (sym start) (
            Agrees-extended w.log_of (note_leader w.log_of (s'.node p))
              (take (length (pre ++ args.entries)) (w.log_of args.term))
              (note_leader-Extends w.log_of (s'.node p) (λ lead. absurd (follows lead)))
              (Agrees-take w.log_of (length (pre ++ args.entries)) (w.log_of args.term)
                (k.whole args.term).1));
      }

  pub appended-Fitting :
      (i : ℕ) (args : AppendEntriesArgs) {after : After} {reply : AppendEntriesReply}
      → get_elem? w.sent i ≡ some (p, args)
      → append_entries (w.cluster.node p) args ≡ some (after, reply)
      → after.node ≡ s'.node p
      → Fitting w (s'.node p)
  appended-Fitting i args {after} {reply} sent e now =
      let (wins, apart, part) = k.fits i p args sent in
      elim (append_entries-log (w.cluster.node p) args (w.log_of args.term) part.pre part.rest
        {after = after} {reply = reply} (k.contiguous p) (k.whole args.term).0
        (λ n f g.
          Agrees-matching w.log_of (w.cluster.node p).log_store (w.log_of args.term) n f g
            (k.agrees p) (k.whole args.term).1)
        part.parts part.prev part.prev_term e) [
          | inl same ↦ kept-Fitting (ap (λ (n : Raft). n.log_store) (sym now) ∙ same)
          | inr (log, at) ↦
              taken-Fitting args part.pre part.rest
                (part.parts ∙ assoc part.pre args.entries part.rest) wins apart
                (ap (λ (n : Raft). n.log_store) (sym now) ∙ log)
                (ap (λ (n : Raft). n.current_term) (sym now) ∙ at)
        ]
