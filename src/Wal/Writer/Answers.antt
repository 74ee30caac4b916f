-- ===== src/Wal/Writer/Answers.antt =====
-- internal/storage/wal/wal.go: who gets an answer from the background writer, and when.
use raft_recovery.Prelude.{
  ℕ, ◌≡◌, refl, ap, ◌∙◌, sym, Bool, Option, List, [], ◌∷◌, ◌++◌, map, arith, leb, length,
  Bool-cases, inl, inr, if◌then◌else◌,
}
use mathlib.Core.List.{append_assoc, append-nil, map-append}
use raft_recovery.Wal.Writer.{
  Wal, WalError, BatchRequest, Answer, Write, FileCalls, accepted, blocked, turned_away, send,
  answer_all, flush_batch, receive, flush_pending, rotate, close,
}

abbrev pub callers : List Answer → List ℕ
callers = map λ a. a.caller

abbrev pub waiting : List BatchRequest → List ℕ
waiting = map λ r. r.caller

callers-answer_all :
    (error : Option WalError) (rs : List BatchRequest) → callers (answer_all error rs) ≡ waiting rs
unfolding answer_all
callers-answer_all error [] = refl
callers-answer_all error (r ∷ rs) = ap (λ l. r.caller ∷ l) (callers-answer_all error rs)

callers-flush_batch :
    (w : Wal) (writes : List Write) (sync_ok : Bool) (batch : List BatchRequest)
    → callers (flush_batch w writes sync_ok batch).1 ≡ waiting batch
unfolding flush_batch
callers-flush_batch w writes sync_ok batch = callers-answer_all _ batch

-- Those who wait: in the batch of the writer, and behind it in the channel.
abbrev pub queued : Wal → List ℕ
queued w = waiting w.batch ++ waiting w.batch_chan

regroup :
    (batch : List BatchRequest) (r : BatchRequest) (rs : List BatchRequest)
    → waiting (batch ++ r ∷ []) ++ waiting rs ≡ waiting batch ++ waiting (r ∷ rs)
regroup batch r rs = simp (map-append, append_assoc)

receive_answers_from :
    (w : Wal) (writes : List Write) (sync_ok : Bool) (chan : List BatchRequest)
    → let w' : Wal = record w { batch_chan = chan } in
      callers (receive w' writes sync_ok).1 ++ queued (receive w' writes sync_ok).0 ≡ queued w'
unfolding receive flush_batch
receive_answers_from w writes sync_ok [] = refl
receive_answers_from w writes sync_ok (r ∷ rs) =
    elim (Bool-cases (leb w.buffer_size (length (w.batch ++ r ∷ [])))) [
      | inl full ↦ rw full (
          ap (λ l. l ++ waiting rs) (callers-answer_all _ (w.batch ++ r ∷ []))
          ∙ regroup w.batch r rs)
      | inr room ↦ rw room (regroup w.batch r rs)
    ]

receive_answers :
    (w : Wal) (writes : List Write) (sync_ok : Bool)
    → callers (receive w writes sync_ok).1 ++ queued (receive w writes sync_ok).0 ≡ queued w
receive_answers w writes sync_ok = receive_answers_from w writes sync_ok w.batch_chan

flush_pending_answers_from :
    (w : Wal) (writes : List Write) (sync_ok : Bool) (batch : List BatchRequest)
    → let w' : Wal = record w { batch = batch } in
      callers (flush_pending w' writes sync_ok).1 ++ queued (flush_pending w' writes sync_ok).0
      ≡ queued w'
unfolding flush_pending flush_batch
flush_pending_answers_from w writes sync_ok [] = refl
flush_pending_answers_from w writes sync_ok (r ∷ rs) =
    ap (λ l. l ++ waiting w.batch_chan) (callers-answer_all _ (r ∷ rs))

flush_pending_answers :
    (w : Wal) (writes : List Write) (sync_ok : Bool)
    → callers (flush_pending w writes sync_ok).1 ++ queued (flush_pending w writes sync_ok).0
      ≡ queued w
flush_pending_answers w writes sync_ok = flush_pending_answers_from w writes sync_ok w.batch

-- What happens to a log: a request is sent, or the writer has a round, or the log is rotated or closed.
-- The writer has no more rounds once the log is closed, or a rotation has failed.
pub data Op : Type 0 where
  sends : Bool → BatchRequest → Op
  receives : List Write → Bool → Op
  flushes : List Write → Bool → Op
  rotates closes : FileCalls → Op

unfoldable pub step : Wal → Op → Wal × List Answer
step w (sends take_closed request) = ((send w take_closed request).0, [])
step w (receives writes sync_ok) = if w.is_closed then (w, []) else receive w writes sync_ok
step w (flushes writes sync_ok) = if w.is_closed then (w, []) else flush_pending w writes sync_ok
step w (rotates os) = ((rotate w os).0, (rotate w os).1)
step w (closes os) = ((close w os).0, (close w os).1)

-- The caller whose request the channel takes.
unfoldable pub taken : Wal → Op → List ℕ
taken w (sends take_closed request) = elim (send w take_closed request).1 [
  | accepted ↦ request.caller ∷ []
  | blocked ↦ []
  | turned_away error ↦ []
]
taken w _ = []

unfoldable pub run : Wal → List Op → Wal × List Answer
run w [] = (w, [])
run w (op ∷ ops) = let rest = run (step w op).0 ops in (rest.0, (step w op).1 ++ rest.1)

unfoldable pub all_taken : Wal → List Op → List ℕ
all_taken w [] = []
all_taken w (op ∷ ops) = taken w op ++ all_taken (step w op).0 ops

rotate_answers :
    (w : Wal) (os : FileCalls) → callers (rotate w os).1 ++ queued (rotate w os).0 ≡ queued w
unfolding rotate
rotate_answers w os = ground (arith, flush_pending_answers w os.writes os.sync_ok)

close_answers :
    (w : Wal) (os : FileCalls) → callers (close w os).1 ++ queued (close w os).0 ≡ queued w
unfolding close
close_answers w os = ground (arith, flush_pending_answers w os.writes os.sync_ok)

behind :
    (batch chan : List BatchRequest) (r : BatchRequest)
    → waiting batch ++ waiting (chan ++ r ∷ []) ≡ (waiting batch ++ waiting chan) ++ (r.caller ∷ [])
behind batch chan r = simp (map-append, append_assoc)

send_answers :
    (w : Wal) (take_closed : Bool) (request : BatchRequest)
    → queued (send w take_closed request).0 ≡ queued w ++ taken w (sends take_closed request)
unfolding send taken
send_answers w take_closed request =
    ground (arith, behind w.batch w.batch_chan request, append-nil (queued w))

step_answers :
    (w : Wal) (op : Op) → callers (step w op).1 ++ queued (step w op).0 ≡ queued w ++ taken w op
unfolding step taken
step_answers w (sends take_closed request) = send_answers w take_closed request
step_answers w (receives writes sync_ok) =
    ground (arith, receive_answers w writes sync_ok, append-nil (queued w))
step_answers w (flushes writes sync_ok) =
    ground (arith, flush_pending_answers w writes sync_ok, append-nil (queued w))
step_answers w (rotates os) = rotate_answers w os ∙ sym (append-nil (queued w))
step_answers w (closes os) = close_answers w os ∙ sym (append-nil (queued w))

-- Whatever is sent, written, rotated and closed, and whichever writes fail: the callers answered so far,
-- and behind them those who still wait, are those who waited at first, and behind them those whose
-- requests were taken since, in their order.
pub run_answers :
    (w : Wal) (ops : List Op)
    → callers (run w ops).1 ++ queued (run w ops).0 ≡ queued w ++ all_taken w ops
unfolding run all_taken
run_answers w [] = sym (append-nil (queued w))
run_answers w (op ∷ ops) =
    let rest = run (step w op).0 ops in
    ap (λ l. l ++ queued rest.0) (map-append (λ (a : Answer). a.caller) (step w op).1 rest.1)
    ∙ append_assoc (callers (step w op).1) (callers rest.1) (queued rest.0)
    ∙ ap (λ l. callers (step w op).1 ++ l) (run_answers (step w op).0 ops)
    ∙ sym
        (append_assoc (callers (step w op).1) (queued (step w op).0) (all_taken (step w op).0 ops))
    ∙ ap (λ l. l ++ all_taken (step w op).0 ops) (step_answers w op)
    ∙ append_assoc (queued w) (taken w op) (all_taken (step w op).0 ops)
