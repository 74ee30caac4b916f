-- ===== src/Server/Peers/Calls.antt =====
-- internal/raft/transport.go and internal/server/server.go: what a node does through its transport is
-- what it would do on its peer's node.
mod Tests
use raft_recovery.Prelude.{
  ◌≡◌, refl, ap, ◌∙◌, Bool, true, false, Option, none, some, List, [], ◌∷◌, String, contains, map,
  if◌then◌else◌, ◌||◌, arith, inl, inr, Option-cases,
}
use mathlib.Core.Option as Option
use raft_recovery.Messages.{AppendEntriesRequest, AppendEntriesResponse}
use raft_recovery.Raft.Log.{LogEntry}
use raft_recovery.Raft.Node.{
  Raft, After, Effect, RequestVoteArgs, RequestVoteReply, AppendEntriesArgs, AppendEntriesReply,
}
use raft_recovery.Raft.Election.{request_vote as node_request_vote}
use raft_recovery.Raft.Replication.{append_entries as node_append_entries}
use raft_recovery.Raft.Transport.{
  GrpcTransport, get_client, vote_request, send_request_vote, append_request, pb_entry,
  send_append_entries,
}
use raft_recovery.Server.Jobs.{Server, Served}
use raft_recovery.Server.Peers.{
  served_entries, request_vote, append_entries, vote_args, append_args, log_entry,
}

-- What a call over a sound network answers: nothing after a panic or an error of the handler.
abbrev pub answer {ℓ} : {R : Type ℓ} → Option (Server × List Effect × Option R) → Option R
answer none = none
answer (some (s, effects, response)) = response

map-entries : (es : List LogEntry) → map log_entry (map pb_entry es) ≡ es
map-entries [] = refl
map-entries (e ∷ es) = ap (λ rest. e ∷ rest) (map-entries es)

-- The node of a server after a call.
abbrev pub node_after {ℓ} : {R : Type ℓ} → Option (Server × List Effect × R) → Option (Option Raft)
node_after none = none
node_after (some (s, effects, response)) = some s.raft_node

args-request : (args : AppendEntriesArgs) → append_args (append_request args) ≡ args
args-request args = ap (λ es. record args { entries = es }) (map-entries args.entries)

answer-served_entries :
    (s : Server) (o : Option (After × AppendEntriesReply))
    → answer (served_entries s o)
      ≡ Option.map (λ done. record { term = done.1.term; success = done.1.success }) o
answer-served_entries s none = refl
answer-served_entries s (some (after, reply)) = refl

node_after-served_entries :
    (s : Server) (o : Option (After × AppendEntriesReply))
    → node_after (served_entries s o) ≡ Option.map (λ done. some done.0.node) o
node_after-served_entries s none = refl
node_after-served_entries s (some (after, reply)) = refl

-- The reply that the transport makes of a response.
reply_of : Option AppendEntriesResponse → Option AppendEntriesReply
reply_of = Option.map (λ resp. record { term = resp.term; success = resp.success })

reply_of-map :
    {A : Type 0} (f : A → AppendEntriesReply) (o : Option A)
    → reply_of (Option.map (λ a. record { term = (f a).term; success = (f a).success }) o)
      ≡ Option.map f o
unfolding reply_of
reply_of-map f none = refl
reply_of-map f (some a) = refl

module _ (t : GrpcTransport) (dialled : Bool) (peer : String)
    (c : (contains peer t.conns || dialled) ≡ true) where
  get_client_connected : (get_client t dialled peer).1 ≡ true
  unfolding get_client
  get_client_connected = ground arith

  -- A request for a vote that reaches a server with a node, over a connection that is kept or could be
  -- made: the caller gets the reply that the node gives to the caller's own arguments, and the server's
  -- node becomes what the node's handler makes of it.
  pub send_request_vote-request_vote :
      (s : Server) (rf : Raft) (args : RequestVoteArgs)
      → s.raft_node ≡ some rf
      → ((send_request_vote t dialled (λ req. answer (request_vote s req)) peer args).1
          ≡ some (node_request_vote rf args).1)
        × (node_after (request_vote s (vote_request args))
            ≡ some (some (node_request_vote rf args).0.node))
  unfolding send_request_vote request_vote
  send_request_vote-request_vote s rf args n = (rw (get_client_connected, n) refl, rw n refl)

  -- Entries that are sent to a server with a node, over a connection that is kept or could be made: the
  -- caller gets the reply that the node gives to the caller's own arguments, none if the node panics,
  -- and the server's node becomes what the node's handler makes of it.
  pub send_append_entries-append_entries :
      (s : Server) (rf : Raft) (args : AppendEntriesArgs)
      → s.raft_node ≡ some rf
      → ((send_append_entries t dialled (λ req. answer (append_entries s req)) peer args).1
          ≡ Option.map (λ done. done.1) (node_append_entries rf args))
        × (node_after (append_entries s (append_request args))
            ≡ Option.map (λ done. some done.0.node) (node_append_entries rf args))
  unfolding send_append_entries append_entries reply_of
  send_append_entries-append_entries s rf args n =
      let got = node_append_entries rf (append_args (append_request args)) in
      let same = ap (node_append_entries rf) (args-request args) in
      (
        rw (get_client_connected, n)
            (ap reply_of (answer-served_entries s got)
              ∙ reply_of-map (λ done. done.1) got
              ∙ ap (Option.map (λ done. done.1)) same),
        rw n (node_after-served_entries s got ∙ ap (Option.map (λ done. some done.0.node)) same),
      )
