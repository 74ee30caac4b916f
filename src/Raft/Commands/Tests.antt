-- ===== src/Raft/Commands/Tests.antt =====
-- internal/raft: the theorems on proposals, applying and compaction, for a leader of term 2.
use raft_recovery.Prelude.{ℕ, ◌+◌, ◌≡◌, refl, some, none, List, [], ◌∷◌, length, arith}
use raft_recovery.Raft.Node.{Raft, leader}
use raft_recovery.Raft.Log.{LogEntry}
use raft_recovery.Raft.Log.Contiguous.{Contiguous}
use raft_recovery.Raft.Commands.{ApplyMsg, propose, apply_logs, snapshot}
use raft_recovery.Raft.Commands.Applying.{Delivers, apply_logs-Delivers, snapshot_last_panics}

abbrev entry : ℕ → ℕ → LogEntry
entry index term = record { term = term; index = index; command = "c" }

-- Three entries behind the dummy, of which the first is applied and all are committed.
abbrev boss : Raft
boss = record {
  current_term = 2;
  voted_for = "n1";
  log_store = entry 0 0 ∷ entry 1 1 ∷ entry 2 2 ∷ entry 3 2 ∷ [];
  last_included_index = 0;
  last_included_term = 0;
  state = leader;
  leader_id = "n1";
  commit_index = 3;
  last_applied = 1;
  next_index = [];
  match_index = [];
  config = record { id = "n1"; peers = "n1" ∷ "n2" ∷ "n3" ∷ [] };
}

boss_log : Contiguous 0 boss.log_store
boss_log = (refl, (refl, (refl, (refl, tt))))

apply_logs-Delivers_example :
    (messages : List ApplyMsg) × (apply_logs boss
      ≡ some (record boss { last_applied = 3 }, messages))
    × Delivers boss.log_store 2 messages
    × (1 + length messages ≡ 3)
apply_logs-Delivers_example =
    apply_logs-Delivers boss 0 3 boss_log refl (omega arith) (omega arith) (omega arith)
      (omega arith)

snapshot_last_panics_example :
    (rf' : Raft) × (snapshot boss 3 ≡ some rf') × (rf'.log_store ≡ []) × (propose rf' "d" ≡ none)
snapshot_last_panics_example =
    snapshot_last_panics boss 0 3 boss_log refl (omega arith) "d" (omega arith) refl
