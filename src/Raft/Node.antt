-- ===== src/Raft/Node.antt =====
-- internal/raft/raft.go: the state of a node, and what a critical section under `rf.mu` leaves to be
-- done outside it. Time enters only by the timers, which are outside; the logger is left out.
use raft_recovery.Prelude.{
  ℕ, Bool, true, false, none, some, List, [], ◌∷◌, String, ℤ, str_eq, lookup, if◌then◌else◌,
}
use raft_recovery.Raft.Log.{Log, LogEntry}

pub data State : Type 0 where
  follower candidate leader : State

abbrev pub is_leader : State → Bool
is_leader leader = true
is_leader _ = false

abbrev pub is_candidate : State → Bool
is_candidate candidate = true
is_candidate _ = false

pub record Config : Type 0 where
  pub id : String
  pub peers : List String

pub record Raft : Type 0 where
  pub current_term : ℕ
  pub voted_for : String
  pub log_store : Log
  pub last_included_index : ℕ
  pub last_included_term : ℕ
  pub state : State
  pub leader_id : String
  pub commit_index : ℕ
  pub last_applied : ℕ
  pub next_index : List (String × ℕ)
  pub match_index : List (String × ℤ)
  pub config : Config

pub record RequestVoteArgs : Type 0 where
  pub term : ℕ
  pub candidate_id : String
  pub last_log_index : ℕ
  pub last_log_term : ℕ

pub record RequestVoteReply : Type 0 where
  pub term : ℕ
  pub vote_granted : Bool

-- `PrevLogIndex` may be -1.
pub record AppendEntriesArgs : Type 0 where
  pub term : ℕ
  pub leader_id : String
  pub prev_log_index : ℤ
  pub prev_log_term : ℕ
  pub entries : List LogEntry
  pub leader_commit : ℕ

pub record AppendEntriesReply : Type 0 where
  pub term : ℕ
  pub success : Bool

-- What a critical section asks for: the election timer restarted, or a goroutine started.
pub data Effect : Type 0 where
  reset_election_timer : Effect
  go_apply_logs : Effect
  go_replicate_to_peer : String → Effect
  go_send_request_vote : String → RequestVoteArgs → Effect

-- The state after a critical section, with its effects in order.
pub record After : Type 0 where
  pub node : Raft
  pub effects : List Effect

abbrev pub leave : Raft → After
leave rf = record { node = rf; effects = [] }

unfoldable pub new_raft : Config → Log → Raft
new_raft config store = record {
  current_term = 0;
  voted_for = "";
  log_store = store;
  last_included_index = 0;
  last_included_term = 0;
  state = follower;
  leader_id = "";
  commit_index = 0;
  last_applied = 0;
  next_index = [];
  match_index = [];
  config = config;
}

-- Reading a key that the map lacks gives the zero value.
abbrev pub read {ℓ} : {V : Type ℓ} → V → String → List (String × V) → V
read zero_value k m = elim (lookup k m) [ none ↦ zero_value | some v ↦ v ]

unfoldable pub convert_to_follower : Raft → ℕ → After
convert_to_follower rf term = record {
  node = record rf { state = follower; current_term = term; voted_for = "" };
  effects = reset_election_timer ∷ [];
}

-- The peers that a loop over `rf.config.Peers` does not skip.
unfoldable pub others : String → List String → List String
others id [] = []
others id (peer ∷ peers) =
    let rest = others id peers in if str_eq peer id then rest else peer ∷ rest

unfoldable pub broadcast_effects : List String → List Effect
broadcast_effects [] = []
broadcast_effects (peer ∷ peers) = go_replicate_to_peer peer ∷ broadcast_effects peers

unfoldable pub broadcast_heartbeats : Raft → List Effect
unfolding broadcast_effects others
broadcast_heartbeats rf = broadcast_effects (others rf.config.id rf.config.peers)
