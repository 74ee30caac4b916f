-- ===== src/Raft/Cluster/Logs/Tests.antt =====
-- internal/raft: a leader's entry reaches a follower, and two leaders commit different commands.
use raft_recovery.Prelude.{◌≡◌, refl, pos, [], ◌∷◌, contains, arith, lookup, insert}
use raft_recovery.Raft.Log.{
  new_memory_log_store, last_index, get_log, first_index, store_log, store_logs,
}
use raft_recovery.Raft.Node.{AppendEntriesArgs, new_raft, others, broadcast_heartbeats}
use raft_recovery.Raft.Election.{start_election, request_vote, receive_vote}
use raft_recovery.Raft.Replication.{
  replicate_request, append_entries, append_loop, entries_from, see_leader, append_checked,
  advance_commit, prev_conflicts,
}
use raft_recovery.Raft.Commands.{propose}
use raft_recovery.Raft.Steps.{step, append_request, proposal}
use raft_recovery.Raft.Cluster.{
  campaign, deliver, collect, other, set_node, set_call, set_calls, set_votes, request_to,
}
use raft_recovery.Raft.Cluster.Logs.{
  World, Moves, start, then_move, act, send, fresh_world, moved, note_leader,
}
use raft_recovery.Raft.Cluster.Logs.Divergence.{Exchanges, Delivers, trio, logs_diverge}
use raft_recovery.Raft.Cluster.Logs.Matching.{log_matching, leader_has}

-- n1 is elected with the vote of n2.
chosen : (w : World) × Moves trio (fresh_world trio) w
unfolding start_election request_vote receive_vote new_raft new_memory_log_store last_index get_log
    first_index set_node set_call set_calls set_votes request_to contains moved note_leader
chosen = (
  _,
  then_move
      (then_move (then_move start (act (campaign "n1" refl refl refl) tt))
        (act (deliver "n1" "n2" 1 refl) tt))
      (act (collect "n1" "n2" 1 refl refl) tt),
)

abbrev commanded : AppendEntriesArgs
commanded = record {
  term = 1;
  leader_id = "n1";
  prev_log_index = pos 0;
  prev_log_term = 0;
  entries = record { term = 1; index = 1; command = "x" } ∷ [];
  leader_commit = 0;
}

-- It takes a command and sends it to n2.
asking : (w : World) × Moves trio (fresh_world trio) w
unfolding chosen step propose store_log store_logs replicate_request entries_from others
    broadcast_heartbeats contains moved lookup insert note_leader
asking = (
  _,
  then_move (then_move chosen.1 (act (other "n1" (proposal "x") refl refl refl) tt))
      (send "n1" "n2" {args = commanded} refl refl),
)

-- n2 appends the entry.
replicated : (w : World) × Moves trio (fresh_world trio) w
unfolding asking step append_entries see_leader append_checked append_loop advance_commit
    prev_conflicts moved note_leader contains
replicated =
    (_, then_move asking.1 (act (other "n2" (append_request commanded) refl refl refl) (0, refl)))

log_matching_example :
    get_log (replicated.0.cluster.node "n1").log_store 0
    ≡ get_log (replicated.0.cluster.node "n2").log_store 0
unfolding replicated
log_matching_example =
    log_matching trio {w = replicated.0} "n1" "n2" 1 0
      (record { term = 1; index = 1; command = "x" })
      (record { term = 1; index = 1; command = "x" }) refl replicated.1 refl refl refl (omega arith)

leader_has_example :
    get_log (replicated.0.cluster.node "n2").log_store 1
    ≡ get_log (replicated.0.cluster.node "n1").log_store 1
unfolding replicated
leader_has_example =
    leader_has trio {w = replicated.0} "n1" "n2" 1 1 (record { term = 1; index = 1; command = "x" })
      refl replicated.1 refl refl refl (omega arith)

logs_diverge_example :
    (w : World) × Exchanges trio (fresh_world trio) w
    × Delivers (w.cluster.node "n1") 1 "x"
    × Delivers (w.cluster.node "n3") 1 "y"
logs_diverge_example = logs_diverge "x" "y"
