-- ===== src/Types.antt =====
-- pkg/types/types.go: jobs and snapshots. Times are Unix milliseconds, durations are counts of
-- their unit, and neither wraps.
use raft_recovery.Prelude.{ℕ, Bool, true, false, Option, List, String}

-- A `JobStatus` is any string; `other` is one that is none of the four constants.
pub data JobStatus : Type 0 where
  pending in_flight completed dead : JobStatus
  other : String → JobStatus

abbrev pub is_pending : JobStatus → Bool
is_pending pending = true
is_pending _ = false

abbrev pub is_in_flight : JobStatus → Bool
is_in_flight in_flight = true
is_in_flight _ = false

abbrev pub is_completed : JobStatus → Bool
is_completed completed = true
is_completed _ = false

abbrev pub is_dead : JobStatus → Bool
is_dead dead = true
is_dead _ = false

-- The payload is kept as its JSON text: nothing that is modelled looks inside.
pub record Job : Type 0 where
  pub id : String
  pub payload : String
  pub status : JobStatus
  pub attempt : ℕ
  pub timeout : ℕ
  pub deadline : Option ℕ
  pub created_at : ℕ
  pub updated_at : ℕ
  pub worker_id : String

pub record SnapshotData : Type 0 where
  pub jobs : List (String × Job)
  pub schema_ver : ℕ
  pub last_seq : ℕ
