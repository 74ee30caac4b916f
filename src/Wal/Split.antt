-- ===== src/Wal/Split.antt =====
-- internal/storage/wal/wal.go: `splitWALFile`, once the log is open. The size that it counts for an event is the length of a
-- printed form, an argument here, as are the outcomes of creating the n-th file and of writing an event.
pub mod Parts
use raft_recovery.Prelude.{
  ℕ, ◌+◌, Bool, true, false, Option, none, some, List, [], ◌∷◌, ◌++◌, leb, ◌||◌, if◌then◌else◌,
}
use raft_recovery.Wal.Event.{Event}
use raft_recovery.Wal.Writer.{WalLine, written, torn}

-- The files that are complete, the one that is written, its size as it is counted, and the number of
-- the last file.
pub record Splitting : Type 0 where
  pub complete : List (List Event)
  pub out_file : Option (List Event)
  pub current_size : ℕ
  pub part : ℕ

abbrev pub files : Splitting → List (List Event)
files s = elim s.out_file [ none ↦ s.complete | some events ↦ s.complete ++ events ∷ [] ]

-- The loop starts without a file.
abbrev pub start : Splitting
start = record { complete = []; out_file = none; current_size = 0; part = 0 }

module _ (size : Event → ℕ) (max_size : ℕ) (create_ok : ℕ → Bool) (encode_ok : Event → Bool) where
  -- The next file, empty.
  abbrev pub next_file : Splitting → Splitting
  next_file s = record {
    complete = files s;
    out_file = some [];
    current_size = 0;
    part = s.part + 1;
  }

  -- Writing an event to the file that is open.
  abbrev pub encode : Splitting → Event → Splitting
  encode s event = record s {
    out_file = elim s.out_file [ none ↦ none | some events ↦ some (events ++ event ∷ []) ];
    current_size = s.current_size + size event;
  }

  abbrev pub is_full : Splitting → Bool
  is_full s = elim s.out_file [ none ↦ true | some events ↦ leb max_size s.current_size ]

  -- A round for an event; false is an error.
  unfoldable pub split_round : Splitting → Event → Splitting × Bool
  split_round s event =
      let s' = if is_full s then next_file s else s in
      if is_full s
      then (if create_ok (s.part + 1)
          then (if encode_ok event then (encode s' event, true) else (s', false))
          else (s, false))
      else if encode_ok event
      then (encode s' event, true)
      else (s', false)

  -- The loop, with the files that it leaves, and whether it ends without an error.
  unfoldable pub split_lines : Splitting → List WalLine → List (List Event) × Bool
  unfolding split_round
  split_lines s [] = (files s, true)
  split_lines s (torn ∷ lines) = (files s, false)
  split_lines s (written event ∷ lines) =
      let (s', ok) = split_round s event in
      let rest = split_lines s' lines in if ok then rest else (files s', false)

  unfoldable pub split_wal_file : List WalLine → List (List Event) × Bool
  unfolding split_lines
  split_wal_file lines = split_lines start lines
