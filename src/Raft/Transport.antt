-- ===== src/Raft/Transport.antt =====
-- internal/raft/transport.go: the calls of a node to its peers. gRPC is outside: whether a connection
-- could be made, and the call of the client, are arguments; a call that fails is none.
use raft_recovery.Prelude.{
  Bool, true, false, Option, none, some, List, [], String, contains, add_key, if◌then◌else◌, map,
}
use raft_recovery.Messages.{
  RequestVoteRequest, RequestVoteResponse, PbLogEntry, AppendEntriesRequest, AppendEntriesResponse,
}
use raft_recovery.Raft.Log.{LogEntry}
use raft_recovery.Raft.Node.{
  RequestVoteArgs, RequestVoteReply, AppendEntriesArgs, AppendEntriesReply,
}

-- The connections that are kept, by the address of the peer.
pub record GrpcTransport : Type 0 where
  pub conns : List String

abbrev pub new_grpc_transport : GrpcTransport
new_grpc_transport = record { conns = [] }

-- A connection that is kept is used again; else `dialled` says whether a new one could be made.
unfoldable pub get_client : GrpcTransport → Bool → String → GrpcTransport × Bool
get_client t dialled peer =
    if contains peer t.conns
    then (t, true)
    else if dialled
    then (record { conns = add_key peer t.conns }, true)
    else (t, false)

abbrev pub vote_request : RequestVoteArgs → RequestVoteRequest
vote_request args = record {
  term = args.term;
  candidate_id = args.candidate_id;
  last_log_index = args.last_log_index;
  last_log_term = args.last_log_term;
}

unfoldable pub send_request_vote :
    GrpcTransport
    → Bool
    → (RequestVoteRequest → Option RequestVoteResponse)
    → String
    → RequestVoteArgs
    → GrpcTransport × Option RequestVoteReply
unfolding get_client
send_request_vote t dialled call peer args =
    let (t', connected) = get_client t dialled peer in
    if connected
    then (
      t',
      elim (call (vote_request args)) [
        | none ↦ none
        | some resp ↦ some (record { term = resp.term; vote_granted = resp.vote_granted })
      ],
    )
    else (t', none)

abbrev pub pb_entry : LogEntry → PbLogEntry
pb_entry e = record { term = e.term; index = e.index; command = e.command }

abbrev pub append_request : AppendEntriesArgs → AppendEntriesRequest
append_request args = record {
  term = args.term;
  leader_id = args.leader_id;
  prev_log_index = args.prev_log_index;
  prev_log_term = args.prev_log_term;
  entries = map pb_entry args.entries;
  leader_commit = args.leader_commit;
}

unfoldable pub send_append_entries :
    GrpcTransport
    → Bool
    → (AppendEntriesRequest → Option AppendEntriesResponse)
    → String
    → AppendEntriesArgs
    → GrpcTransport × Option AppendEntriesReply
unfolding get_client
send_append_entries t dialled call peer args =
    let (t', connected) = get_client t dialled peer in
    if connected
    then (
      t',
      elim (call (append_request args)) [
        | none ↦ none
        | some resp ↦ some (record { term = resp.term; success = resp.success })
      ],
    )
    else (t', none)
