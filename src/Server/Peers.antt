-- ===== src/Server/Peers.antt =====
-- internal/server/server.go: the calls of other nodes, RequestVote and AppendEntries.
pub mod Calls
use raft_recovery.Prelude.{Option, none, some, List, [], ◌∷◌, map}
use raft_recovery.Messages.{
  RequestVoteRequest, RequestVoteResponse, PbLogEntry, AppendEntriesRequest, AppendEntriesResponse,
}
use raft_recovery.Raft.Log.{LogEntry}
use raft_recovery.Raft.Node.{After, RequestVoteArgs, AppendEntriesArgs, AppendEntriesReply}
use raft_recovery.Raft.Election.{request_vote as node_request_vote}
use raft_recovery.Raft.Replication.{append_entries as node_append_entries}
use raft_recovery.Server.Jobs.{Server, Served}

abbrev pub vote_args : RequestVoteRequest → RequestVoteArgs
vote_args req = record {
  term = req.term;
  candidate_id = req.candidate_id;
  last_log_index = req.last_log_index;
  last_log_term = req.last_log_term;
}

-- The answer is none on a server without a node.
unfoldable pub request_vote : Server → RequestVoteRequest → Served (Option RequestVoteResponse)
request_vote s req = elim s.raft_node [
  | none ↦ some (s, [], none)
  | some rf ↦
      let (after, reply) = node_request_vote rf (vote_args req) in
      some (
        record s { raft_node = some after.node },
        after.effects,
        some (record { term = reply.term; vote_granted = reply.vote_granted }),
      )
]

abbrev pub log_entry : PbLogEntry → LogEntry
log_entry e = record { term = e.term; index = e.index; command = e.command }

abbrev pub append_args : AppendEntriesRequest → AppendEntriesArgs
append_args req = record {
  term = req.term;
  leader_id = req.leader_id;
  prev_log_index = req.prev_log_index;
  prev_log_term = req.prev_log_term;
  entries = map log_entry req.entries;
  leader_commit = req.leader_commit;
}

-- The end of `AppendEntries`, with what the node made of the call; none is its panic.
abbrev pub served_entries :
    Server → Option (After × AppendEntriesReply) → Served (Option AppendEntriesResponse)
served_entries s none = none
served_entries s (some (after, reply)) = some (
  record s { raft_node = some after.node },
  after.effects,
  some (record { term = reply.term; success = reply.success }),
)

unfoldable pub append_entries :
    Server → AppendEntriesRequest → Served (Option AppendEntriesResponse)
append_entries s req = elim s.raft_node [
  | none ↦ some (s, [], none)
  | some rf ↦ served_entries s (node_append_entries rf (append_args req))
]
