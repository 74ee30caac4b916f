-- ===== src/Raft/Cluster/Logs/Invariant.antt =====
-- internal/raft: what ties the logs of a cluster and its requests to the logs of the leaders, and how a
-- critical section of one node keeps it.
use raft_recovery.Prelude.{
  ℕ, ◌≤◌, ◌<◌, ◌≡◌, refl, sym, ap, subst, ◌∙◌, some, false, [], ◌∷◌, ◌++◌, length, get_elem?, arith,
  inl, inr, ◌⊎◌, sub_ℕ, ◌==◌, List, String, str_eq, Bool-cases, length-append, get_elem?-append_lt,
  ◌&&◌,
}
use raft_recovery.Raft.Log.{Log}
use raft_recovery.Raft.Log.Contiguous.{Contiguous}
use raft_recovery.Raft.Node.{Raft, AppendEntriesArgs, leader, follower, is_leader}
use raft_recovery.Raft.Replication.{term_at}
use raft_recovery.Raft.Cluster.{Cluster}
use raft_recovery.Raft.Cluster.Invariant.{Won}
use raft_recovery.Raft.Cluster.Logs.{World, note_leader}
use raft_recovery.Raft.Cluster.Logs.Agreement.{append_nil, Agrees, Extends}
use raft_recovery.Raft.Cluster.Logs.Entries.{get_log_zero}

-- A request is for a part of the log, behind `pre`.
pub record Part (whole : Log) (args : AppendEntriesArgs) : Type 0 where
  pub pre : Log
  pub rest : Log
  pub parts : whole ≡ pre ++ (args.entries ++ rest)
  pub prev : args.prev_log_index ≡ sub_ℕ (length pre) 1
  pub prev_term : args.prev_log_term ≡ term_at whole (sub_ℕ (length pre) 1)

-- The term's leader has left the term or still leads in it.
abbrev pub Owned : List String → Cluster → ℕ → Type 0
Owned peers s t =
    (c : String) × Won peers s c t
    × ((t < (s.node c).current_term)
        ⊎ (((s.node c).current_term ≡ t) × ((s.node c).state ≡ leader)))

pub record Matched (peers : List String) (w : World) : Type 0 where
  pub contiguous : (p : String) → Contiguous 0 (w.cluster.node p).log_store
  pub agrees : (p : String) → Agrees w.log_of (w.cluster.node p).log_store
  pub whole : (t : ℕ) → Contiguous 0 (w.log_of t) × Agrees w.log_of (w.log_of t)
  pub current :
      (c : String)
      → (w.cluster.node c).state ≡ leader
      → w.log_of (w.cluster.node c).current_term ≡ (w.cluster.node c).log_store
  pub owner : (t : ℕ) → 0 < t → (w.log_of t ≡ []) ⊎ Owned peers w.cluster t
  pub role :
      (p : String) → ((w.cluster.node p).state ≡ follower) ⊎ (0 < (w.cluster.node p).current_term)
  pub fits :
      (i : ℕ) (peer : String) (args : AppendEntriesArgs)
      → get_elem? w.sent i ≡ some (peer, args)
      → Won peers w.cluster args.leader_id args.term
        × (str_eq peer args.leader_id ≡ false)
        × Part (w.log_of args.term) args

append_more : (pre es fs gs : Log) → (pre ++ (es ++ fs)) ++ gs ≡ pre ++ (es ++ (fs ++ gs))
append_more [] [] fs gs = refl
append_more [] (e ∷ es) fs gs = ap (λ l. e ∷ l) (append_more [] es fs gs)
append_more (p ∷ pre) es fs gs = ap (λ l. p ∷ l) (append_more pre es fs gs)

term_at-append :
    (pre es more : Log)
    → Contiguous 0 es
    → Contiguous 0 (es ++ more)
    → length pre ≤ length es
    → term_at (es ++ more) (sub_ℕ (length pre) 1) ≡ term_at es (sub_ℕ (length pre) 1)
term_at-append [] es more c d h = refl
term_at-append (p ∷ pre) es more c d h =
    let same =
      get_log_zero (es ++ more) (length pre) d
      ∙ get_elem?-append_lt es more (length pre) (omega arith)
      ∙ sym (get_log_zero es (length pre) c) in
    ground (arith, same)

-- A request for a part of a log is for a part of the longer log.
pub Part-extended :
    (es es' more : Log) (args : AppendEntriesArgs)
    → Contiguous 0 es
    → Contiguous 0 es'
    → es' ≡ es ++ more
    → Part es args
    → Part es' args
Part-extended es es' more args c d e p = record {
  pre = p.pre;
  rest = p.rest ++ more;
  parts = e ∙ ap (λ l. l ++ more) p.parts ∙ append_more p.pre args.entries p.rest more;
  prev = p.prev;
  prev_term =
      p.prev_term
      ∙ sym (
          term_at-append p.pre es more c (subst (Contiguous 0) e d)
            (omega (arith, ap length p.parts, length-append p.pre (args.entries ++ p.rest))))
      ∙ ap (λ l. term_at l (sub_ℕ (length p.pre) 1)) (sym e);
}

-- What a node is after a step that keeps the tie.
pub record Fitting (w : World) (rf' : Raft) : Type 0 where
  pub grown :
      rf'.state ≡ leader → (more : Log) × (rf'.log_store ≡ w.log_of rf'.current_term ++ more)
  pub contiguous : Contiguous 0 rf'.log_store
  pub agrees : Agrees (note_leader w.log_of rf') rf'.log_store

pub noted :
    (log_of : ℕ → Log) (rf : Raft) (t : ℕ)
    → ((rf.state ≡ leader) × (t ≡ rf.current_term) × (note_leader log_of rf t ≡ rf.log_store))
      ⊎ (((rf.state ≡ leader) × (t ≡ rf.current_term) → ⊥) × (note_leader log_of rf t ≡ log_of t))
unfolding note_leader
noted log_of rf t = elim (Bool-cases (is_leader rf.state && (t == rf.current_term))) [
  | inl here ↦ inl (ground arith, ground arith, rw here refl)
  | inr apart ↦ inr (λ h. ground (arith, h.0, h.1), rw apart refl)
]

pub note_leader-Extends :
    (log_of : ℕ → Log) (rf : Raft)
    → (rf.state ≡ leader → (more : Log) × (rf.log_store ≡ log_of rf.current_term ++ more))
    → Extends log_of (note_leader log_of rf)
note_leader-Extends log_of rf grown t = elim (noted log_of rf t) [
  | inl (lead, at, new) ↦
      let g = grown lead in (g.0, new ∙ g.1 ∙ ap (λ n. log_of n ++ g.0) (sym at))
  | inr (apart, same) ↦ ([], same ∙ append_nil (log_of t))
]

pub note_leader-own :
    (log_of : ℕ → Log) (rf : Raft)
    → rf.state ≡ leader
    → note_leader log_of rf rf.current_term ≡ rf.log_store
unfolding note_leader
note_leader-own log_of rf lead = ground arith
