-- ===== src/Raft/Cluster/Logs/Divergence.antt =====
-- internal/raft: two leaders commit different commands at one index, since a vote does not ask for an
-- up-to-date log.
use raft_recovery.Prelude.{
  ℕ, ◌≡◌, refl, Bool, true, false, some, pos, List, [], ◌∷◌, String, contains, get_elem?, lookup,
  insert,
}
use raft_recovery.Raft.Log.{
  LogEntry, new_memory_log_store, last_index, get_log, first_index, store_log, store_logs,
}
use raft_recovery.Raft.Node.{
  Raft, After, AppendEntriesArgs, AppendEntriesReply, new_raft, others, broadcast_heartbeats,
}
use raft_recovery.Raft.Election.{start_election, request_vote, receive_vote}
use raft_recovery.Raft.Replication.{
  replicate_request, replicate_reply, append_entries, append_loop, entries_from, see_leader,
  append_checked, advance_commit, prev_conflicts, record_match, update_commit_index, commit_loop,
  is_committable,
}
use raft_recovery.Raft.Commands.{propose, apply_logs, messages_from}
use raft_recovery.Raft.Steps.{Input, append_reply, step, proposal}
use raft_recovery.Raft.Cluster.{
  Cluster, Step, campaign, deliver, collect, other, set_node, set_call, set_calls, set_votes,
  request_to,
}
use raft_recovery.Raft.Cluster.Logs.{World, IsClosed, fresh_world, moved, mover, note_leader}

abbrev pub is_append_reply : Input → Bool
is_append_reply (append_reply peer args reply) = true
is_append_reply _ = false

-- A step that brings a leader no reply to its entries.
abbrev pub IsOwn : {peers : List String} {s s' : Cluster} → Step peers s s' → Type 0
IsOwn (other p input m q e) = is_append_reply input ≡ false
IsOwn _ = Unit {0}

unfoldable pub put_node : World → String → Raft → World
put_node w p rf = moved w (set_node w.cluster p rf) p

-- The moves of `Moves` with the replies closed too: a leader gets only the reply that the peer gave to a
-- request which was sent.
module _ (peers : List String) where
  pub data Exchanges (w : World) : World → Type 0 where
    begin : Exchanges w w
    acts :
        {v : World} {s' : Cluster}
        → Exchanges w v
        → (st : Step peers v.cluster s') → IsClosed v.sent st
        → IsOwn st
        → Exchanges w (moved v s' (mover st))
    sends :
        {v : World}
        → Exchanges w v
        → (c peer : String) {args : AppendEntriesArgs} → contains peer (others c peers) ≡ true
        → replicate_request (v.cluster.node c) peer ≡ some (some args)
        → Exchanges w (record v { sent = (peer, args) ∷ v.sent })
    answers :
        {v : World}
        → Exchanges w v
        → (peer : String) (i : ℕ) {args : AppendEntriesArgs} {at_peer at_leader : After}
          {reply : AppendEntriesReply}
        → get_elem? v.sent i ≡ some (peer, args)
        → append_entries (v.cluster.node peer) args ≡ some (at_peer, reply)
        → replicate_reply
            ((put_node v peer at_peer.node).cluster.node args.leader_id)
            peer
            args
            reply
          ≡ some at_leader
        → Exchanges w (put_node (put_node v peer at_peer.node) args.leader_id at_leader.node)

abbrev pub trio : List String
trio = "n1" ∷ "n2" ∷ "n3" ∷ []

-- n1 is elected with the vote of n2.
chosen : (w : World) × Exchanges trio (fresh_world trio) w
unfolding start_election request_vote receive_vote new_raft new_memory_log_store last_index get_log
    first_index set_node set_call set_calls set_votes request_to contains moved note_leader
chosen = (
  _,
  acts (acts (acts begin (campaign "n1" refl refl refl) tt tt) (deliver "n1" "n2" 1 refl) tt tt)
      (collect "n1" "n2" 1 refl refl) tt tt,
)

abbrev entry_of : ℕ → String → LogEntry
entry_of t command = record { term = t; index = 1; command = command }

abbrev carrying : ℕ → String → String → AppendEntriesArgs
carrying t leader_id command = record {
  term = t;
  leader_id = leader_id;
  prev_log_index = pos 0;
  prev_log_term = 0;
  entries = entry_of t command ∷ [];
  leader_commit = 0;
}

-- It takes a command and sends it to n2.
asking : (x : String) → (w : World) × Exchanges trio (fresh_world trio) w
unfolding chosen step propose store_log store_logs replicate_request entries_from others
    broadcast_heartbeats contains moved lookup insert note_leader
asking x = (
  _,
  sends (acts chosen.1 (other "n1" (proposal x) refl refl refl) tt refl) "n1" "n2"
      {args = carrying 1 "n1" x} refl refl,
)

-- n2 appends the entry, and n1 commits it.
committed : (x : String) → (w : World) × Exchanges trio (fresh_world trio) w
unfolding asking append_entries see_leader append_checked append_loop advance_commit prev_conflicts
    moved note_leader contains put_node replicate_reply record_match update_commit_index commit_loop
    is_committable
committed x = (_, answers (asking x).1 "n2" 0 refl refl refl)

-- n3, whose log is empty, campaigns twice and is elected for term 2 with the vote of n2.
overtaken : (x : String) → (w : World) × Exchanges trio (fresh_world trio) w
unfolding committed start_election request_vote receive_vote last_index get_log first_index set_node
    set_call set_calls set_votes request_to contains moved note_leader put_node
overtaken x = (
  _,
  acts
      (acts
        (acts (acts (committed x).1 (campaign "n3" refl refl refl) tt tt)
          (campaign "n3" refl refl refl) tt tt)
        (deliver "n3" "n2" 2 refl) tt tt)
      (collect "n3" "n2" 2 refl refl) tt tt,
)

-- It takes another command, sends it to n2, and commits it.
replaced : (x y : String) → (w : World) × Exchanges trio (fresh_world trio) w
unfolding overtaken step propose store_log store_logs replicate_request entries_from others
    broadcast_heartbeats contains moved lookup insert note_leader append_entries see_leader
    append_checked append_loop advance_commit prev_conflicts put_node replicate_reply record_match
    update_commit_index commit_loop is_committable
replaced x y = (
  _,
  answers
      (sends (acts (overtaken x).1 (other "n3" (proposal y) refl refl refl) tt refl) "n3" "n2"
        {args = carrying 2 "n3" y} refl refl)
      "n2" 0 refl refl refl,
)

abbrev pub Delivers : Raft → ℕ → String → Type 0
Delivers rf index command =
    (rf' : Raft) × (apply_logs rf
      ≡ some (rf', record { command_valid = true; command = command; command_index = index } ∷ []))

-- In a cluster of three new nodes, where requests and replies arrive only as they were given, and for
-- any two commands: some order of the steps ends where the first node is to deliver the one command at
-- index 1, and the third node the other.
pub logs_diverge :
    (x y : String)
    → (w : World) × Exchanges trio (fresh_world trio) w
      × Delivers (w.cluster.node "n1") 1 x
      × Delivers (w.cluster.node "n3") 1 y
unfolding replaced apply_logs messages_from
logs_diverge x y = ((replaced x y).0, (replaced x y).1, (_, refl), (_, refl))
