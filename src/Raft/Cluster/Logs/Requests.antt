-- ===== src/Raft/Cluster/Logs/Requests.antt =====
-- internal/raft/raft.go: a leader's request is for a part of its log.
use raft_recovery.Prelude.{
  ℕ, ◌+◌, ◌-◌, ◌≤◌, ◌≡◌, sym, ap, ◌∙◌, some, none, true, false, [], ◌++◌, length, take, drop, arith,
  inl, inr, sub_ℕ, String, if◌then◌else◌, ltb, Bool-cases, Option-cases, take-append-drop,
  length-take,
}
use raft_recovery.Raft.Log.{last_index}
use raft_recovery.Raft.Log.Contiguous.{Contiguous}
use raft_recovery.Raft.Node.{Raft, AppendEntriesArgs, leader, is_leader, read}
use raft_recovery.Raft.Replication.{replicate_request, entries_from, term_at}
use raft_recovery.Raft.Cluster.Logs.Agreement.{append_nil}
use raft_recovery.Raft.Cluster.Logs.Entries.{entries_from-drop}
use raft_recovery.Raft.Cluster.Logs.Inputs.{last_index-length}
use raft_recovery.Raft.Cluster.Logs.Invariant.{Part}

-- What a leader's request is made of.
record Made (rf : Raft) (args : AppendEntriesArgs) : Type 0 where
  pub lead : rf.state ≡ leader
  pub term : args.term ≡ rf.current_term
  pub by_leader : args.leader_id ≡ rf.config.id
  pub last : ℕ
  pub ends : last_index rf.log_store ≡ some last
  pub from : ℕ
  pub within : from ≤ last + 1
  pub prev : args.prev_log_index ≡ sub_ℕ from 1
  pub prev_term : args.prev_log_term ≡ term_at rf.log_store (sub_ℕ from 1)
  pub entries : args.entries ≡ entries_from rf.log_store from (last + 1 - from)

replicate_request-Made :
    (rf : Raft) (peer : String) {args : AppendEntriesArgs}
    → replicate_request rf peer ≡ some (some args)
    → Made rf args
unfolding replicate_request
replicate_request-Made rf peer {args} e = elim (Bool-cases (is_leader rf.state)) [
  | inr follows ↦ absurd (silent follows)
  | inl leads ↦ elim (Option-cases (last_index rf.log_store)) [
    | inl empty ↦ absurd (stuck leads empty)
    | inr (last, l) ↦
        let from =
          if ltb (last + 1) (read 0 peer rf.next_index)
          then last + 1
          else read 0 peer rf.next_index in
        record {
          lead = ground arith;
          term = ground arith;
          by_leader = ground arith;
          last = last;
          ends = l;
          from = from;
          within = ground arith;
          prev = ground arith;
          prev_term = ground arith;
          entries = ground arith;
        }
  ]
]
  where
    silent : is_leader rf.state ≡ false → ⊥
    silent follows = ground arith

    stuck : is_leader rf.state ≡ true → last_index rf.log_store ≡ none → ⊥
    stuck leads empty = ground arith

-- The request is in the leader's term, under its name, and for the end of its log.
pub sent-Part :
    (rf : Raft) (peer : String) {args : AppendEntriesArgs}
    → Contiguous 0 rf.log_store
    → replicate_request rf peer ≡ some (some args)
    → (rf.state ≡ leader)
      × (args.term ≡ rf.current_term)
      × (args.leader_id ≡ rf.config.id)
      × Part rf.log_store args
sent-Part rf peer {args} c e =
    let m = replicate_request-Made rf peer {args = args} e in
    let len = last_index-length rf.log_store m.last c m.ends in
    let all : args.entries ≡ drop m.from rf.log_store =
      m.entries
      ∙ entries_from-drop rf.log_store m.from (m.last + 1 - m.from) c
          (omega (arith, len, m.within)) in
    let at : m.from ≡ length (take m.from rf.log_store) =
      omega (arith, len, m.within, length-take m.from rf.log_store) in
    (
      m.lead,
      m.term,
      m.by_leader,
      record {
        pre = take m.from rf.log_store;
        rest = [];
        parts =
            sym (take-append-drop m.from rf.log_store)
            ∙ ap (λ l. take m.from rf.log_store ++ l) (sym all ∙ append_nil args.entries);
        prev = m.prev ∙ ap (λ n. sub_ℕ n 1) at;
        prev_term = m.prev_term ∙ ap (λ n. term_at rf.log_store (sub_ℕ n 1)) at;
      },
    )
