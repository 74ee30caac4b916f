-- ===== src/Raft/Commands.antt =====
-- internal/raft/raft.go and commands.go: proposals, applying committed entries, log compaction.
-- JSON encoding is Go's: a command is its bytes, kept as a text.
pub mod Applying
pub mod Encoding
mod Tests
use raft_recovery.Prelude.{
  ℕ, zero, suc, ◌+◌, ◌-◌, Bool, true, false, Option, none, some, List, [], ◌∷◌, ◌++◌, String, ℤ,
  pos, negsuc, ltb, leb, if◌then◌else◌,
}
use raft_recovery.Raft.Log.{
  Log, LogEntry, first_index, last_index, get_log, store_log, delete_range,
}
use raft_recovery.Raft.Node.{Raft, State, is_leader, After, leave, broadcast_heartbeats}

pub record ApplyMsg : Type 0 where
  pub command_valid : Bool
  pub command : String
  pub command_index : ℕ

-- What `Propose` returns: index, term, and whether this node leads.
pub record Proposal : Type 0 where
  pub index : ℤ
  pub term : ℤ
  pub accepted : Bool

unfoldable pub propose : Raft → String → Option (After × Proposal)
propose rf command =
    if is_leader rf.state
    then elim (last_index rf.log_store) [
      | none ↦ none
      | some last ↦ some (
        record {
          node = record rf {
            log_store =
                store_log rf.log_store
                  (record { term = rf.current_term; index = last + 1; command = command });
          };
          effects = broadcast_heartbeats rf;
        },
        record { index = pos (last + 1); term = pos rf.current_term; accepted = true },
      )
    ]
    else some (leave rf, record { index = negsuc 0; term = negsuc 0; accepted = false })

-- The messages that `applyLogs` sends for the `count` indexes from `from` on: an index that the log
-- does not hold is passed over.
unfoldable pub messages_from : Log → ℕ → ℕ → List ApplyMsg
messages_from es from zero = []
messages_from es from (suc count) =
    let rest = messages_from es (from + 1) count in
    elim (get_log es from) [
      | none ↦ rest
      | some entry ↦
          record { command_valid = true; command = entry.command; command_index = entry.index }
          ∷ rest
    ]

-- `applyLogs` sends under the mutex, so that no other step comes between its rounds. On an empty log
-- `GetLog` panics.
unfoldable pub apply_logs : Raft → Option (Raft × List ApplyMsg)
unfolding messages_from
apply_logs rf =
    if ltb rf.last_applied rf.commit_index
    then elim (first_index rf.log_store) [
      | none ↦ none
      | some first ↦ some (
        record rf { last_applied = rf.commit_index },
        messages_from rf.log_store (rf.last_applied + 1) (rf.commit_index - rf.last_applied),
      )
    ]
    else some (rf, [])

-- `Snapshot`. Its data is not used by the source.
unfoldable pub snapshot : Raft → ℕ → Option Raft
snapshot rf index =
    if leb index rf.last_included_index then some rf else elim (first_index rf.log_store) [
      | none ↦ none
      | some first ↦ elim (get_log rf.log_store index) [
        | none ↦ some rf
        | some entry ↦ some (record rf {
          last_included_index = index;
          last_included_term = entry.term;
          log_store = delete_range first index rf.log_store;
        })
      ]
    ]
