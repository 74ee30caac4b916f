-- ===== src/Raft/Log.antt =====
-- internal/raft/log.go: the log store in memory. Terms and indexes are int64 in the source; here
-- they are numbers that do not wrap. `none` from an index lookup at the ends of the list is the
-- panic of `m.entries[0]` on an empty slice; `none` from `get_log` is `ErrLogNotFound`.

pub mod Contiguous
use raft_recovery.Prelude.{
  ℕ, ◌+◌, ◌-◌, Bool, true, false, Option, none, some, List, [], ◌∷◌, ◌++◌, String, length,
  get_elem?, ltb, leb, if◌then◌else◌, ◌||◌,
}

pub record LogEntry : Type 0 where
  pub term : ℕ
  pub index : ℕ
  pub command : String

-- The slice `entries` of a `MemoryLogStore`.
abbrev pub Log : Type 0
Log = List LogEntry

unfoldable pub new_memory_log_store : Log
new_memory_log_store = record { term = 0; index = 0; command = "" } ∷ []

unfoldable pub first_index : Log → Option ℕ
first_index [] = none
first_index (e ∷ es) = some e.index

unfoldable pub last_index : Log → Option ℕ
last_index [] = none
last_index (e ∷ []) = some e.index
last_index (e ∷ f ∷ es) = last_index (f ∷ es)

-- `none` too where `FirstIndex` panics: its callers have called `last_index` before.
unfoldable pub get_log : Log → ℕ → Option LogEntry
unfolding first_index
get_log es index = elim (first_index es) [
  | none ↦ none
  | some first ↦ if ltb index first then none else get_elem? es (index - first)
]

unfoldable pub store_logs : Log → List LogEntry → Log
store_logs es new = es ++ new

unfoldable pub store_log : Log → LogEntry → Log
unfolding store_logs
store_log es e = store_logs es (e ∷ [])

unfoldable pub delete_range : ℕ → ℕ → Log → Log
delete_range low high [] = []
delete_range low high (e ∷ es) =
    let rest = delete_range low high es in
    if ltb e.index low || ltb high e.index then e ∷ rest else rest
