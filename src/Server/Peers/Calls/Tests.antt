-- ===== src/Server/Peers/Calls/Tests.antt =====
-- internal/server/server.go: calls that reach a node.
use raft_recovery.Prelude.{◌≡◌, refl, true, some, [], ◌∷◌, pos, contains}
use mathlib.Core.Option as Option
use raft_recovery.Raft.Log.{new_memory_log_store}
use raft_recovery.Raft.Node.{Raft, AppendEntriesArgs, new_raft}
use raft_recovery.Raft.Replication.{append_entries as node_append_entries}
use raft_recovery.Raft.Transport.{new_grpc_transport, append_request, send_append_entries}
use raft_recovery.Controller.Core.{new_controller}
use raft_recovery.Server.Jobs.{Server}
use raft_recovery.Server.Peers.{append_entries}
use raft_recovery.Server.Peers.Calls.{answer, node_after, send_append_entries-append_entries}

abbrev node : Raft
node = new_raft (record { id = "n2"; peers = "n1" ∷ "n2" ∷ [] }) new_memory_log_store

abbrev server : Server
server = record {
  controller = new_controller (record { task_timeout = 5; max_retry = 3 });
  raft_node = some node;
}

abbrev beat : AppendEntriesArgs
beat = record {
  term = 1;
  leader_id = "n1";
  prev_log_index = pos 0;
  prev_log_term = 0;
  entries = record { term = 1; index = 1; command = "x" } ∷ [];
  leader_commit = 0;
}

send_append_entries-append_entries_example :
    ((send_append_entries new_grpc_transport true
        (λ req. answer (append_entries server req))
        "n2"
        beat).1
      ≡ Option.map (λ done. done.1) (node_append_entries node beat))
    × (node_after (append_entries server (append_request beat))
        ≡ Option.map (λ done. some done.0.node) (node_append_entries node beat))
unfolding contains
send_append_entries-append_entries_example =
    send_append_entries-append_entries new_grpc_transport true "n2" refl server node beat refl
