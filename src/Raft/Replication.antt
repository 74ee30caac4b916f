-- ===== src/Raft/Replication.antt =====
-- internal/raft/rpc.go and raft.go: log replication. `none` is a panic of the log store.
mod Matching
pub mod Append
pub mod Safety
pub mod Commit
pub mod Request
mod Tests
use raft_recovery.Prelude.{
  ℕ, zero, suc, ◌+◌, ◌-◌, ◌/◌, Bool, true, false, Option, none, some, List, [], ◌∷◌, ◌++◌, String,
  ℤ, pos, negsuc, sub_ℕ, add_ℕ, leb_ℤ, str_eq, insert, length, ltb, leb, if◌then◌else◌, ◌||◌, ◌&&◌,
  not, ◌==◌,
}
use raft_recovery.Raft.Log.{
  Log, LogEntry, first_index, last_index, get_log, store_log, store_logs, delete_range,
}
use raft_recovery.Raft.Node.{
  Raft, State, is_leader, AppendEntriesArgs, AppendEntriesReply, Effect, reset_election_timer,
  go_apply_logs, After, leave, convert_to_follower, others, broadcast_heartbeats, read,
}

-- Step 2 of `AppendEntries`: whether an entry at `PrevLogIndex` has another term. An index below 0,
-- or one that the log does not hold, is no conflict.
unfoldable pub prev_conflicts : Log → ℤ → ℕ → Bool
prev_conflicts es (negsuc n) term = false
prev_conflicts es (pos n) term = elim (get_log es n) [
  | none ↦ false
  | some prev ↦ not (prev.term == term)
]

abbrev pub lt_ℤ : ℕ → ℤ → Bool
lt_ℤ n (pos a) = ltb n a
lt_ℤ n (negsuc a) = false

-- Steps 3 and 4: the loop over the entries, with `lastIndex` as it is before the loop. After the
-- first entry that is not in the log, the rest is stored and the loop ends.
unfoldable pub append_loop : ℕ → Log → List LogEntry → Log
append_loop last es [] = es
append_loop last es (entry ∷ entries) =
    let rest = append_loop last es entries in
    let stored = store_logs es (entry ∷ entries) in
    if leb entry.index last
    then elim (get_log es entry.index) [
      | none ↦ stored
      | some existing ↦
          if existing.term == entry.term
          then rest
          else store_logs (delete_range entry.index last es) (entry ∷ entries)
    ]
    else stored

-- Step 5.
unfoldable pub advance_commit : Raft → ℕ → Option After
advance_commit rf leader_commit =
    if ltb rf.commit_index leader_commit
    then elim (last_index rf.log_store) [
      | none ↦ none
      | some last ↦ some (record {
        node = record rf { commit_index = if ltb leader_commit last then leader_commit else last };
        effects = go_apply_logs ∷ [];
      })
    ]
    else some (leave rf)

-- Steps 2 to 5, for a request that is not stale, on the node that has seen its term and leader.
unfoldable pub append_checked :
    Raft → List Effect → ℕ → AppendEntriesArgs → Option (After × AppendEntriesReply)
append_checked rf effects term args =
    let refused : Option (After × AppendEntriesReply) =
      some (record { node = rf; effects = effects }, record { term = term; success = false }) in
    elim (last_index rf.log_store) [
      | none ↦ none
      | some last ↦
          if lt_ℤ last args.prev_log_index
            || prev_conflicts rf.log_store args.prev_log_index args.prev_log_term
          then refused
          else elim (advance_commit
              (record rf { log_store = append_loop last rf.log_store args.entries })
              args.leader_commit) [
                | none ↦ none
                | some after ↦ some (
                  record after { effects = effects ++ after.effects },
                  record { term = term; success = true },
                )
              ]
    ]

-- Step 1, for a request that is not stale: the node takes over its term, and its leader.
unfoldable pub see_leader : Raft → AppendEntriesArgs → After
see_leader rf args =
    let seen : After =
      if ltb rf.current_term args.term then convert_to_follower rf args.term else leave rf in
    record {
      node = record (seen.node) { leader_id = args.leader_id };
      effects = seen.effects ++ reset_election_timer ∷ [];
    }

-- The reply carries the term from before the request was looked at.
unfoldable pub append_entries : Raft → AppendEntriesArgs → Option (After × AppendEntriesReply)
append_entries rf args =
    if ltb args.term rf.current_term
    then some (leave rf, record { term = rf.current_term; success = false })
    else append_checked ((see_leader rf args).node) ((see_leader rf args).effects) rf.current_term
        args

-- The entries at `from`, `from + 1`, … for `count` indexes, those that the log holds.
unfoldable pub entries_from : Log → ℕ → ℕ → List LogEntry
entries_from es from zero = []
entries_from es from (suc count) =
    let rest = entries_from es (from + 1) count in
    elim (get_log es from) [ none ↦ rest | some entry ↦ entry ∷ rest ]

abbrev pub term_at : Log → ℤ → ℕ
term_at es (negsuc n) = 0
term_at es (pos n) = elim (get_log es n) [ none ↦ 0 | some prev ↦ prev.term ]

-- The first critical section of `replicateToPeer`: the request to send, if the node leads.
unfoldable pub replicate_request : Raft → String → Option (Option AppendEntriesArgs)
unfolding entries_from
replicate_request rf peer =
    if is_leader rf.state
    then elim (last_index rf.log_store) [
      | none ↦ none
      | some last ↦
          let wanted : ℕ = read 0 peer rf.next_index in
          let next : ℕ = if ltb (last + 1) wanted then last + 1 else wanted in
          some (
            some (record {
              term = rf.current_term;
              leader_id = rf.config.id;
              prev_log_index = sub_ℕ next 1;
              prev_log_term = term_at rf.log_store (sub_ℕ next 1);
              entries = entries_from rf.log_store next (last + 1 - next);
              leader_commit = rf.commit_index;
            }))
    ]
    else some none

-- How many of the other peers are known to hold the entry at `n`.
unfoldable pub holders : Raft → ℕ → List String → ℕ
holders rf n [] = 0
holders rf n (peer ∷ peers) =
    let rest = holders rf n peers in
    if not (str_eq peer rf.config.id) && leb_ℤ n (read (pos 0) peer rf.match_index)
    then suc rest
    else rest

-- The condition of `updateCommitIndex` on one index.
unfoldable pub is_committable : Raft → ℕ → Bool
unfolding holders
is_committable rf n =
    ltb (length rf.config.peers / 2) (1 + holders rf n rf.config.peers)
    && (elim (get_log rf.log_store n) [ none ↦ false | some e ↦ e.term == rf.current_term ])

-- The loop of `updateCommitIndex`, with `count` indexes left above the commit index.
unfoldable pub commit_loop : Raft → ℕ → After
unfolding is_committable
commit_loop rf zero = leave rf
commit_loop rf (suc count) =
    let below = commit_loop rf count in
    let n : ℕ = rf.commit_index + suc count in
    if is_committable rf n
    then record { node = record rf { commit_index = n }; effects = go_apply_logs ∷ [] }
    else below

unfoldable pub update_commit_index : Raft → Option After
unfolding commit_loop
update_commit_index rf = elim (last_index rf.log_store) [
  | none ↦ none
  | some last ↦ some (commit_loop rf (last - rf.commit_index))
]

-- `matched + 1`, at least 0 for a value that is at least -1.
abbrev next_of : ℤ → ℕ
next_of (pos n) = n + 1
next_of (negsuc n) = 0

unfoldable pub record_match : Raft → String → ℤ → Raft
record_match rf peer matched = record rf {
  match_index = insert peer matched rf.match_index;
  next_index = insert peer (next_of matched) rf.next_index;
}

unfoldable pub step_back : Raft → String → Raft
step_back rf peer =
    let wanted : ℕ = read 0 peer rf.next_index in
    record rf { next_index = insert peer (if ltb wanted 2 then 1 else wanted - 1) rf.next_index }

-- The second critical section of `replicateToPeer`, for the reply to the request `args`.
unfoldable pub replicate_reply :
    Raft → String → AppendEntriesArgs → AppendEntriesReply → Option After
replicate_reply rf peer args reply =
    if not (is_leader rf.state) || not (args.term == rf.current_term)
    then some (leave rf)
    else if ltb rf.current_term reply.term
    then some (convert_to_follower rf reply.term)
    else if reply.success
    then update_commit_index
        (record_match rf peer (add_ℕ args.prev_log_index (length args.entries)))
    else some (leave (step_back rf peer))
