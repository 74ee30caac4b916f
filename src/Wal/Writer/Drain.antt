-- ===== src/Wal/Writer/Drain.antt =====
-- internal/storage/wal/wal.go: the background writer comes round to every request.
use raft_recovery.Prelude.{
  ◌≤◌, ◌-◌, ◌≡◌, refl, ap, ◌∙◌, sym, Bool, List, [], ◌∷◌, ◌++◌, arith, length, false, if◌then◌else◌,
}
use mathlib.Core.List.{append-nil}
use raft_recovery.Wal.Writer.{Wal, Write, BatchRequest, receive, flush_pending, flush_batch}
use raft_recovery.Wal.Writer.Answers.{
  Op, receives, flushes, run, step, all_taken, taken, callers, queued, waiting, run_answers,
}

-- What the operating system does in a round: the writes, and the sync.
abbrev pub Round : Type 0
Round = List Write × Bool

-- A round of the writer for each, and a tick at the end.
abbrev pub rounds : List Round → Round → List Op
rounds [] tick = flushes tick.0 tick.1 ∷ []
rounds (r ∷ rs) tick = receives r.0 r.1 ∷ rounds rs tick

receive_shortens :
    (w : Wal) (r : Round) → length (receive w r.0 r.1).0.batch_chan ≡ length w.batch_chan - 1
unfolding receive flush_batch
receive_shortens w r = ground arith

pub flush_pending-batch : (w : Wal) (r : Round) → (flush_pending w r.0 r.1).0.batch ≡ []
unfolding flush_pending flush_batch
flush_pending-batch w r = ground arith

flush_pending-batch_chan :
    (w : Wal) (r : Round) → (flush_pending w r.0 r.1).0.batch_chan ≡ w.batch_chan
unfolding flush_pending flush_batch
flush_pending-batch_chan w r = ground arith

empty_of : (rs : List BatchRequest) → length rs ≤ 0 → rs ≡ []
empty_of [] h = refl
empty_of (r ∷ rs) h = absurd (omega arith)

receive-is_closed : (w : Wal) (r : Round) → (receive w r.0 r.1).0.is_closed ≡ w.is_closed
unfolding receive flush_batch
receive-is_closed w r = ground arith

if_open {ℓ} : {A : Type ℓ} {b : Bool} → b ≡ false → (x y : A) → (if b then x else y) ≡ y
if_open o x y = ap (λ b. if b then x else y) o

rounds_empty :
    (w : Wal) (rs : List Round) (tick : Round)
    → w.is_closed ≡ false
    → length w.batch_chan ≤ length rs
    → queued (run w (rounds rs tick)).0 ≡ []
unfolding run step
rounds_empty w [] tick o h =
    let chan = flush_pending-batch_chan w tick ∙ empty_of w.batch_chan h in
    ap (λ s. queued s.0) (if_open o (w, []) (flush_pending w tick.0 tick.1))
    ∙ ap (λ batch. waiting batch ++ waiting (flush_pending w tick.0 tick.1).0.batch_chan)
        (flush_pending-batch w tick)
    ∙ ap waiting chan
rounds_empty w (r ∷ rs) tick o h =
    ap (λ s. queued (run s.0 (rounds rs tick)).0) (if_open o (w, []) (receive w r.0 r.1))
    ∙ rounds_empty ((receive w r.0 r.1).0) rs tick (receive-is_closed w r ∙ o)
        (ground (arith, receive_shortens w r))

rounds_taken : (w : Wal) (rs : List Round) (tick : Round) → all_taken w (rounds rs tick) ≡ []
unfolding all_taken taken step
rounds_taken w [] tick = refl
rounds_taken w (r ∷ rs) tick = rounds_taken (step w (receives r.0 r.1)).0 rs tick

-- On a log that is not closed, after as many rounds of the writer as requests stand in the channel, and
-- one tick, everyone who waited
-- has an answer, each once and in the order of the requests, whatever the writes and syncs do.
pub rounds_answer :
    (w : Wal) (rs : List Round) (tick : Round)
    → w.is_closed ≡ false
    → length w.batch_chan ≤ length rs
    → callers (run w (rounds rs tick)).1 ≡ queued w
rounds_answer w rs tick o h =
    sym (append-nil (callers (run w (rounds rs tick)).1))
    ∙ ap (λ rest. callers (run w (rounds rs tick)).1 ++ rest) (sym (rounds_empty w rs tick o h))
    ∙ run_answers w (rounds rs tick)
    ∙ ap (λ rest. queued w ++ rest) (rounds_taken w rs tick)
    ∙ append-nil (queued w)
