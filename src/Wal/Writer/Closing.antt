-- ===== src/Wal/Writer/Closing.antt =====
-- internal/storage/wal/wal.go: the callers whose requests the writer leaves in the channel when it stops.
use raft_recovery.Prelude.{◌≡◌, refl, ap, ◌∙◌, sym, true, false, List, [], ◌∷◌, ◌++◌, arith}
use raft_recovery.Wal.Writer.{Wal, FileCalls, send, flush_pending, flush_batch, rotate, close}
use raft_recovery.Wal.Writer.Answers.{
  Op, sends, receives, flushes, rotates, closes, run, step, all_taken, callers, queued, waiting,
  run_answers,
}

step-closed : (w : Wal) (op : Op) → w.is_closed ≡ true → (step w op).0.is_closed ≡ true
unfolding step send rotate close
step-closed w (sends take_closed request) h = ground arith
step-closed w (receives writes sync_ok) h = ground arith
step-closed w (flushes writes sync_ok) h = ground arith
step-closed w (rotates os) h = ground arith
step-closed w (closes os) h = ground arith

step_silent : (w : Wal) (op : Op) → w.is_closed ≡ true → (step w op).1 ≡ []
unfolding step send rotate close
step_silent w (sends take_closed request) h = refl
step_silent w (receives writes sync_ok) h = ground arith
step_silent w (flushes writes sync_ok) h = ground arith
step_silent w (rotates os) h = ground arith
step_silent w (closes os) h = ground arith

run_silent : (w : Wal) (ops : List Op) → w.is_closed ≡ true → (run w ops).1 ≡ []
unfolding run
run_silent w [] h = refl
run_silent w (op ∷ ops) h =
    rw (step_silent w op h) (run_silent (step w op).0 ops (step-closed w op h))

close-is_closed : (w : Wal) (os : FileCalls) → (close w os).0.is_closed ≡ true
unfolding close
close-is_closed w os = ground arith

close-queued :
    (w : Wal) (os : FileCalls) → w.is_closed ≡ false → queued (close w os).0 ≡ waiting w.batch_chan
unfolding close flush_pending flush_batch
close-queued w os o = ground arith

-- When a log that is open is closed: whatever is sent, rotated and closed after it, nobody gets an answer
-- any more. Those whose requests stood in the channel wait for good, and so do, behind them, those whose
-- requests the channel takes later.
pub close_strands :
    (w : Wal) (os : FileCalls) (ops : List Op)
    → w.is_closed ≡ false
    → let w' = (close w os).0 in
      ((run w' ops).1 ≡ []) × (queued (run w' ops).0 ≡ waiting w.batch_chan ++ all_taken w' ops)
close_strands w os ops o =
    let w' = (close w os).0 in
    let silent = run_silent w' ops (close-is_closed w os) in
    (
      silent,
      ap (λ answers. callers answers ++ queued (run w' ops).0) (sym silent)
          ∙ run_answers w' ops
          ∙ ap (λ l. l ++ all_taken w' ops) (close-queued w os o),
    )
