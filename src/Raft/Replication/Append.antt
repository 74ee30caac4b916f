-- ===== src/Raft/Replication/Append.antt =====
-- internal/raft/rpc.go: `AppendEntries` on a log whose entries are consecutive.
use raft_recovery.Prelude.{
  ℕ, ◌<◌, ◌≡◌, refl, Bool, true, false, some, List, [], ◌∷◌, length, arith, not, ◌⊎◌, inl, inr, ltb,
  Bool-cases, is_some, leb, length-append, ◌&&◌, ◌||◌,
}
use raft_recovery.Raft.Log.{Log, last_index, delete_range, store_logs}
use raft_recovery.Raft.Node.{
  Raft, Effect, After, AppendEntriesArgs, AppendEntriesReply, convert_to_follower,
}
use raft_recovery.Raft.Replication.{
  append_entries, append_checked, see_leader, append_loop, advance_commit, prev_conflicts, lt_ℤ,
}

-- What a request that is answered with success has found and done.
pub record Appended (last : ℕ) (rf rf' : Raft) (args : AppendEntriesArgs) (success : Bool)
    : Type 0 where
  pub succeeded : success ≡ true
  pub prev_reached : lt_ℤ last args.prev_log_index ≡ false
  pub prev_agrees : prev_conflicts rf.log_store args.prev_log_index args.prev_log_term ≡ false
  pub appended : rf'.log_store ≡ append_loop last rf.log_store args.entries

advance_commit-log :
    (rf : Raft) (leader_commit : ℕ) {after : After}
    → advance_commit rf leader_commit ≡ some after
    → after.node.log_store ≡ rf.log_store
unfolding advance_commit
advance_commit-log rf leader_commit e = ground arith

module _ (rf : Raft) (last : ℕ) (l : last_index rf.log_store ≡ some last) (args : AppendEntriesArgs)
    (after : After) (reply : AppendEntriesReply) where
  append_checked-Appended :
      (effects : List Effect) (term : ℕ)
      → append_checked rf effects term args ≡ some (after, reply)
      → ((reply.success ≡ false) × (after.node.log_store ≡ rf.log_store))
        ⊎ Appended last rf after.node args reply.success
  unfolding append_checked
  append_checked-Appended effects term e = grind (arith, advance_commit-log)

see_leader-log :
    (rf : Raft) (args : AppendEntriesArgs) → (see_leader rf args).node.log_store ≡ rf.log_store
unfolding see_leader convert_to_follower
see_leader-log rf args = ground arith

pub append_entries-Appended :
    (rf : Raft) (last : ℕ) (l : last_index rf.log_store ≡ some last) (args : AppendEntriesArgs)
    (after : After) (reply : AppendEntriesReply)
    → append_entries rf args ≡ some (after, reply)
    → ((reply.success ≡ false) × (after.node.log_store ≡ rf.log_store))
      ⊎ Appended last rf after.node args reply.success
unfolding append_entries
append_entries-Appended rf last l args after reply e =
    grind (arith, see_leader-log rf args, append_checked-Appended)

advance_commit-total :
    (rf : Raft) (leader_commit l : ℕ)
    → last_index rf.log_store ≡ some l
    → (after : After) × (advance_commit rf leader_commit ≡ some after)
unfolding advance_commit
advance_commit-total rf leader_commit l h = elim (Bool-cases (ltb rf.commit_index leader_commit)) [
  | inl more ↦ rw (more, h) (_, refl)
  | inr less ↦ rw less (_, refl)
]

append_checked-total :
    (rf : Raft) (effects : List Effect) (term : ℕ) (args : AppendEntriesArgs) (last l : ℕ)
    → last_index rf.log_store ≡ some last
    → last_index (append_loop last rf.log_store args.entries) ≡ some l
    → is_some (append_checked rf effects term args) ≡ true
unfolding append_checked
append_checked-total rf effects term args last l h k =
    let t =
      advance_commit-total (record rf { log_store = append_loop last rf.log_store args.entries })
        args.leader_commit l k in
    ground (arith, t.1)

pub append_entries-total :
    (rf : Raft) (args : AppendEntriesArgs) (last l : ℕ)
    → last_index rf.log_store ≡ some last
    → last_index (append_loop last rf.log_store args.entries) ≡ some l
    → is_some (append_entries rf args) ≡ true
unfolding append_entries
append_entries-total rf args last l h k = ground (
  arith,
  see_leader-log rf args,
  append_checked-total (see_leader rf args).node (see_leader rf args).effects rf.current_term args
      last l,
)

-- The success of the reply tells whether the request was found current and its previous entry held.
append_checked-success :
    (rf : Raft) (effects : List Effect) (term : ℕ) (args : AppendEntriesArgs) (last : ℕ)
    (after : After) (reply : AppendEntriesReply)
    → last_index rf.log_store ≡ some last
    → append_checked rf effects term args ≡ some (after, reply)
    → reply.success
      ≡ not (
          lt_ℤ last args.prev_log_index
          || prev_conflicts rf.log_store args.prev_log_index args.prev_log_term)
unfolding append_checked
append_checked-success rf effects term args last after reply l e = ground arith

pub append_entries-success_eq :
    (rf : Raft) (args : AppendEntriesArgs) (last : ℕ) (after : After) (reply : AppendEntriesReply)
    → last_index rf.log_store ≡ some last
    → append_entries rf args ≡ some (after, reply)
    → reply.success ≡ (
        leb rf.current_term args.term
        && not (
            lt_ℤ last args.prev_log_index
            || prev_conflicts rf.log_store args.prev_log_index args.prev_log_term))
unfolding append_entries
append_entries-success_eq rf args last after reply l e = ground (
  arith,
  see_leader-log rf args,
  append_checked-success (see_leader rf args).node (see_leader rf args).effects rf.current_term args
      last after reply,
)

-- The loop never leaves an empty log.
pub append_loop_nonempty :
    (last : ℕ) (es new : Log) → 0 < length es → 0 < length (append_loop last es new)
unfolding append_loop store_logs
append_loop_nonempty last es [] h = h
append_loop_nonempty last es (entry ∷ new) h = ground (
  arith,
  append_loop_nonempty last es new h,
  length-append es (entry ∷ new),
  length-append (delete_range entry.index last es) (entry ∷ new),
)
