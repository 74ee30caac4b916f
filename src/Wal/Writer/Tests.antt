-- ===== src/Wal/Writer/Tests.antt =====
-- internal/storage/wal/wal.go: a batch of two.
use raft_recovery.Prelude.{arith, List, ℕ, ◌≡◌, refl, true, false, none, [], ◌∷◌, ◌++◌}
use raft_recovery.Wal.Event.{Event, enqueue}
use raft_recovery.Wal.Writer.{
  Wal, BatchRequest, written, succeeds, leaves_torn, FileCalls, encode_all, answer_all, flush_batch,
  close, send, flush_pending,
}
use raft_recovery.Wal.Writer.Durability.{flush_batch_durable}
use raft_recovery.Wal.Writer.Closing.{close_strands}
use raft_recovery.Wal.Writer.Drain.{rounds, rounds_answer}
use raft_recovery.Wal.Writer.Answers.{
  Op, sends, receives, rotates, closes, run, taken, all_taken, run_answers, callers, queued,
}

abbrev event : ℕ → Event
event seq = record { seq = seq; type = enqueue; job_id = "a"; timestamp = 0; checksum = 0 }

abbrev asked : ℕ → BatchRequest
asked seq = record { event = event seq; caller = seq }

abbrev log : Wal
log = record {
  seq = 3;
  file = written (event 1) ∷ [];
  synced = [];
  backups = [];
  batch_chan = asked 3 ∷ [];
  batch = asked 2 ∷ [];
  buffer_size = 2;
  is_closed = false;
}

both_answered :
    (flush_batch log (succeeds ∷ []) true (asked 2 ∷ asked 3 ∷ [])).1
    ≡ answer_all none (asked 2 ∷ asked 3 ∷ [])
unfolding flush_batch encode_all
both_answered = refl

flush_batch_durable_example :
    (flush_batch log (succeeds ∷ []) true (asked 2 ∷ asked 3 ∷ [])).0.synced
    ≡ written (event 1) ∷ written (event 2) ∷ written (event 3) ∷ []
flush_batch_durable_example =
    flush_batch_durable log (succeeds ∷ []) true (asked 2) (asked 3 ∷ []) both_answered

abbrev calls : FileCalls
calls = record {
  writes = leaves_torn ∷ [];
  sync_ok = true;
  close_ok = true;
  rename_ok = true;
  open_ok = true;
}

-- The batch of 2 and 3 is full; 4 waits until the writer takes it, and fails at the rotation. After the
-- end, 5 is turned away.
abbrev history : List Op
history =
    sends false (asked 4)
    ∷ receives [] true
    ∷ receives [] true
    ∷ rotates calls
    ∷ closes calls
    ∷ sends true (asked 5)
    ∷ []

run_answers_example :
    callers (run log history).1 ++ queued (run log history).0
    ≡ (2 ∷ 3 ∷ []) ++ all_taken log history
run_answers_example = run_answers log history

rounds_answer_example : callers (run log (rounds (([], false) ∷ []) ([], true))).1 ≡ queued log
rounds_answer_example = rounds_answer log (([], false) ∷ []) ([], true) refl (omega arith)

-- The log is closed with 3 in the channel, which still takes 5.
close_strands_example :
    let w' = (close log calls).0 in
    ((run w' (sends false (asked 5) ∷ [])).1 ≡ [])
    × (queued (run w' (sends false (asked 5) ∷ [])).0
        ≡ (3 ∷ []) ++ all_taken w' (sends false (asked 5) ∷ []))
close_strands_example = close_strands log calls (sends false (asked 5) ∷ []) refl

five_taken : all_taken (close log calls).0 (sends false (asked 5) ∷ []) ≡ 5 ∷ []
unfolding all_taken taken send close flush_pending flush_batch
five_taken = refl
