-- ===== src/Raft/Replication/Tests.antt =====
-- internal/raft: the theorems on replication, for a leader and a follower whose logs differ.
use raft_recovery.Prelude.{ℕ, ◌≤◌, ◌≡◌, ◌↔◌, ◌⊎◌, refl, true, some, [], ◌∷◌, lookup, pos, arith}
use raft_recovery.Raft.Node.{
  Raft, After, AppendEntriesArgs, AppendEntriesReply, leader, follower, read, go_apply_logs,
  reset_election_timer, convert_to_follower,
}
use raft_recovery.Raft.Log.{LogEntry, last_index, get_log, first_index, store_logs, delete_range}
use raft_recovery.Raft.Log.Contiguous.{Contiguous}
use raft_recovery.Raft.Replication.{
  append_entries, append_checked, see_leader, append_loop, advance_commit, prev_conflicts,
  replicate_request, entries_from, update_commit_index, commit_loop, is_committable, holders,
}
use raft_recovery.Raft.Replication.Safety.{Holds, append_entries-success_iff, append_entries-Holds}
use raft_recovery.Raft.Replication.Commit.{Commits, update_commit_index_majority}
use raft_recovery.Raft.Replication.Request.{replicated-Holds}

abbrev entry : ℕ → ℕ → LogEntry
entry index term = record { term = term; index = index; command = "c" }

-- A leader of term 2 that knows n2 to hold its log up to 3.
abbrev boss : Raft
boss = record {
  current_term = 2;
  voted_for = "n1";
  log_store = entry 0 0 ∷ entry 1 1 ∷ entry 2 2 ∷ entry 3 2 ∷ [];
  last_included_index = 0;
  last_included_term = 0;
  state = leader;
  leader_id = "n1";
  commit_index = 1;
  last_applied = 1;
  next_index = ("n2", 4) ∷ ("n3", 2) ∷ [];
  match_index = ("n2", pos 3) ∷ ("n3", pos 0) ∷ [];
  config = record { id = "n1"; peers = "n1" ∷ "n2" ∷ "n3" ∷ [] };
}

-- A follower with an entry of an older term at 2.
abbrev peer : Raft
peer = record boss {
  current_term = 1;
  voted_for = "";
  log_store = entry 0 0 ∷ entry 1 1 ∷ entry 2 1 ∷ [];
  state = follower;
  config = record { id = "n3"; peers = "n1" ∷ "n2" ∷ "n3" ∷ [] };
}

abbrev request : AppendEntriesArgs
request = record {
  term = 2;
  leader_id = "n1";
  prev_log_index = pos 1;
  prev_log_term = 1;
  entries = entry 2 2 ∷ entry 3 2 ∷ [];
  leader_commit = 3;
}

abbrev taken : After
taken = record {
  node = record peer {
    current_term = 2;
    leader_id = "n1";
    log_store = entry 0 0 ∷ entry 1 1 ∷ entry 2 2 ∷ entry 3 2 ∷ [];
    commit_index = 3;
  };
  effects = reset_election_timer ∷ reset_election_timer ∷ go_apply_logs ∷ [];
}

abbrev yes_reply : AppendEntriesReply
yes_reply = record { term = 1; success = true }

peer_takes : append_entries peer request ≡ some (taken, yes_reply)
unfolding append_entries see_leader append_checked append_loop advance_commit prev_conflicts
    convert_to_follower last_index get_log first_index store_logs delete_range
peer_takes = refl

boss_sends : replicate_request boss "n3" ≡ some (some (record request { leader_commit = 1 }))
unfolding replicate_request entries_from last_index get_log first_index lookup
boss_sends = refl

peer_log : Contiguous 0 peer.log_store
peer_log = (refl, (refl, (refl, tt)))

boss_log : Contiguous 0 boss.log_store
boss_log = (refl, (refl, (refl, (refl, tt))))

request_log : Contiguous 2 request.entries
request_log = (refl, (refl, tt))

append_entries-success_iff_example :
    (yes_reply.success ≡ true) ↔ ((1 ≤ request.term) × Holds peer.log_store 1 1)
append_entries-success_iff_example =
    append_entries-success_iff peer request 0 1 2 peer_log refl refl (omega arith) request_log
      (omega arith) taken yes_reply peer_takes

append_entries-Holds_example : Holds taken.node.log_store 3 2
append_entries-Holds_example =
    append_entries-Holds peer request 0 1 2 peer_log refl refl (omega arith) request_log
      (omega arith) taken yes_reply peer_takes refl 1 (entry 3 2) refl

boss_last : last_index boss.log_store ≡ some 3
unfolding last_index
boss_last = refl

abbrev committed : After
committed = record { node = record boss { commit_index = 3 }; effects = go_apply_logs ∷ [] }

boss_commits : update_commit_index boss ≡ some committed
unfolding update_commit_index commit_loop is_committable holders last_index get_log first_index
    lookup
boss_commits = refl

update_commit_index_majority_example : (committed.node ≡ boss) ⊎ Commits boss 3 3
update_commit_index_majority_example =
    update_commit_index_majority boss 3 {after = committed} boss_last (omega arith) boss_commits

boss_next : read 0 "n3" boss.next_index ≡ 2
unfolding lookup
boss_next = refl

abbrev followed : After
followed = record taken {
  node = record (taken.node) { commit_index = 1 };
  effects = reset_election_timer ∷ reset_election_timer ∷ [];
}

peer_follows :
    append_entries peer (record request { leader_commit = 1 }) ≡ some (followed, yes_reply)
unfolding append_entries see_leader append_checked append_loop advance_commit prev_conflicts
    convert_to_follower last_index get_log first_index store_logs delete_range
peer_follows = refl

boss_third : get_log boss.log_store 3 ≡ some (entry 3 2)
unfolding get_log first_index
boss_third = refl

replicated-Holds_example : Holds followed.node.log_store 3 2
replicated-Holds_example =
    replicated-Holds boss "n3" (record request { leader_commit = 1 }) 0 1 3 boss_log refl boss_next
      (omega arith) (omega arith) boss_sends peer 0 2 3 followed yes_reply (entry 3 2) peer_log refl
      (omega arith) (omega arith) peer_follows refl (omega arith) (omega arith) boss_third
