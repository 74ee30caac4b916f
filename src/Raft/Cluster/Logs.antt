-- ===== src/Raft/Cluster/Logs.antt =====
-- internal/raft: the nodes of a cluster whose replication is closed: a node gets only requests that a
-- leader sent to it, in any order, late, twice or never. Its replies come as they like. No log is
-- compacted, and no node restarts.
pub mod Agreement
pub mod Entries
pub mod Inputs
pub mod Invariant
pub mod Acting
pub mod Acts
pub mod Requests
pub mod Keeping
pub mod Divergence
pub mod Matching
mod Tests
use raft_recovery.Prelude.{
  ℕ, ◌≡◌, Bool, true, false, Option, none, some, List, [], ◌∷◌, String, contains, get_elem?,
  if◌then◌else◌, ◌&&◌, ◌==◌,
}
use raft_recovery.Raft.Log.{Log, new_memory_log_store}
use raft_recovery.Raft.Node.{Raft, AppendEntriesArgs, is_leader, others}
use raft_recovery.Raft.Replication.{replicate_request}
use raft_recovery.Raft.Steps.{
  Input, vote_request, append_request, election_timeout, heartbeat_timeout, apply_committed,
  vote_reply, append_reply, proposal, compaction,
}
use raft_recovery.Raft.Cluster.{Cluster, Step, campaign, deliver, collect, other, fresh}

-- `sent` holds every request that was ever sent, with the peer it goes to. `log_of` is only a history:
-- the log that the leader of a term has, or had when it last led in it.
pub record World : Type 0 where
  pub cluster : Cluster
  pub sent : List (String × AppendEntriesArgs)
  pub log_of : ℕ → Log

unfoldable pub note_leader : (ℕ → Log) → Raft → ℕ → Log
note_leader log_of rf t =
    if is_leader rf.state && (t == rf.current_term) then rf.log_store else log_of t

-- The node whose critical section a step is.
abbrev pub mover : {peers : List String} {s s' : Cluster} → Step peers s s' → String
mover (campaign c m not_leader e) = c
mover (deliver c p t h) = p
mover (collect c p t h e) = c
mover (other p input m q e) = p

-- What may reach a node: a request only if it was sent to the node.
abbrev pub Reaches : List (String × AppendEntriesArgs) → String → Input → Type 0
Reaches sent p (append_request args) = (i : ℕ) × (get_elem? sent i ≡ some (p, args))
Reaches sent p (compaction index) = ⊥
Reaches sent p (vote_request args) = ⊥
Reaches sent p _ = Unit {0}

abbrev pub IsClosed :
    List (String × AppendEntriesArgs)
    → {peers : List String} {s s' : Cluster} → Step peers s s'
    → Type 0
IsClosed sent (campaign c m not_leader e) = Unit {0}
IsClosed sent (deliver c p t h) = Unit {0}
IsClosed sent (collect c p t h e) = Unit {0}
IsClosed sent (other p input m q e) = Reaches sent p input

unfoldable pub moved : World → Cluster → String → World
moved w s' p = record w { cluster = s'; log_of = note_leader w.log_of (s'.node p) }

module _ (peers : List String) where
  -- A critical section of a node, or the one in which `replicateToPeer` makes a request.
  pub data Move (w : World) : World → Type 0 where
    act :
        {s' : Cluster} (st : Step peers w.cluster s')
        → IsClosed w.sent st
        → Move w (moved w s' (mover st))
    send :
        (c peer : String) {args : AppendEntriesArgs}
        → contains peer (others c peers) ≡ true
        → replicate_request (w.cluster.node c) peer ≡ some (some args)
        → Move w (record w { sent = (peer, args) ∷ w.sent })

  pub data Moves (w : World) : World → Type 0 where
    start : Moves w w
    then_move : {v u : World} → Moves w v → Move v u → Moves w u

  -- Term 0 has no leader: its log is that of a new node.
  abbrev pub fresh_world : World
  fresh_world = record {
    cluster = fresh peers;
    sent = [];
    log_of = λ t. if t == 0 then new_memory_log_store else [];
  }
