-- ===== src/Wal/Writer.antt =====
-- internal/storage/wal/wal.go: appending, batches, rotation, closing and replay. The file is what a
-- JSON decoder reads from it: events, and torn records, at which it fails. What the operating system
-- does is an argument of each operation.
pub mod Durability
pub mod Answers
pub mod Drain
pub mod Closing
mod Tests
use raft_recovery.Prelude.{
  ◌*◌, ltb, ◌&&◌, ◌||◌, ℕ, ◌+◌, ◌≡◌, Bool, true, false, Option, none, some, List, [], ◌∷◌, ◌++◌,
  String, length, leb, map, not, if◌then◌else◌,
}
use raft_recovery.Wal.Event.{Event, EventType, new_event, verify_checksum}

pub data WalLine : Type 0 where
  written : Event → WalLine
  torn : WalLine

pub data WalError : Type 0 where
  encode_failed sync_failed wal_closed close_failed rename_failed open_failed : WalError

-- An append that waits for its batch: the event, and the caller who gets the answer.
pub record BatchRequest : Type 0 where
  pub event : Event
  pub caller : ℕ

-- The file as a reader finds it, and as the last sync has put it on the disk; the channel, and the
-- batch that the background writer has taken from it so far.
pub record Wal : Type 0 where
  pub seq : ℕ
  pub file : List WalLine
  pub synced : List WalLine
  pub backups : List (List WalLine)
  pub batch_chan : List BatchRequest
  pub batch : List BatchRequest
  pub buffer_size : ℕ
  pub is_closed : Bool

-- `NewWAL` on a file: `GetLastEvent` returns no event and no error, so numbering starts at 0. A buffer
-- size of 0 becomes 100. What was synced before is not known.
unfoldable pub new_wal : List WalLine → ℕ → Wal
new_wal file buffer_size = record {
  seq = 0;
  file = file;
  synced = [];
  backups = [];
  batch_chan = [];
  batch = [];
  buffer_size = if leb buffer_size 0 then 100 else buffer_size;
  is_closed = false;
}

-- The first part of `Append`, under the mutex.
unfoldable pub take_seq : Wal → Wal × ℕ
take_seq w = (record w { seq = w.seq + 1 }, w.seq + 1)

pub data Sent : Type 0 where
  accepted blocked : Sent
  turned_away : WalError → Sent

-- The second part, a select: the channel takes the request if it has room, and `closed` is ready once
-- the log is closed. If both are, `take_closed` says which is taken; if none is, the caller waits.
unfoldable pub send : Wal → Bool → BatchRequest → Wal × Sent
send w take_closed request =
    let room = ltb (length w.batch_chan) (w.buffer_size * 2) in
    if w.is_closed && (take_closed || not room)
    then (w, turned_away wal_closed)
    else if room
    then (record w { batch_chan = w.batch_chan ++ request ∷ [] }, accepted)
    else (w, blocked)

-- How the write of one record ends: a failed one may leave a torn record.
pub data Write : Type 0 where
  succeeds leaves_torn leaves_nothing : Write

-- The encoding loop of `flushBatch`: it stops at the first error. The writes are as the operating
-- system has them, one for each event, and succeed where the list is too short.
unfoldable pub encode_all : List Write → List Event → List WalLine × Bool
encode_all writes [] = ([], true)
encode_all [] (e ∷ es) = let rest = encode_all [] es in (written e ∷ rest.0, rest.1)
encode_all (leaves_torn ∷ writes) (e ∷ es) = (torn ∷ [], false)
encode_all (leaves_nothing ∷ writes) (e ∷ es) = ([], false)
encode_all (succeeds ∷ writes) (e ∷ es) =
    let rest = encode_all writes es in (written e ∷ rest.0, rest.1)

-- An answer to a caller: no error, or the error of its batch.
pub record Answer : Type 0 where
  pub caller : ℕ
  pub error : Option WalError

abbrev pub events_of : List BatchRequest → List Event
events_of = map λ r. r.event

unfoldable pub answer_all : Option WalError → List BatchRequest → List Answer
answer_all error [] = []
answer_all error (r ∷ rs) = record { caller = r.caller; error = error } ∷ answer_all error rs

-- One sync for the whole batch; its outcome is the answer to every request.
unfoldable pub flush_batch : Wal → List Write → Bool → List BatchRequest → Wal × List Answer
unfolding answer_all
flush_batch w writes sync_ok batch =
    let (lines, encoded) = encode_all writes (events_of batch) in
    let file = w.file ++ lines in
    (
      record w { file = file; synced = if encoded && sync_ok then file else w.synced },
      answer_all
          (if encoded then (if sync_ok then none else some sync_failed) else some encode_failed)
          batch,
    )

-- A round of `batchWriter` that receives a request.
unfoldable pub receive : Wal → List Write → Bool → Wal × List Answer
unfolding flush_batch
receive w writes sync_ok = elim w.batch_chan [
  | [] ↦ (w, [])
  | request ∷ requests ↦
      let batch = w.batch ++ request ∷ [] in
      let w' : Wal = record w { batch_chan = requests; batch = batch } in
      if leb w.buffer_size (length batch)
      then flush_batch (record w' { batch = [] }) writes sync_ok batch
      else (w', [])
]

-- A round of `batchWriter` at a tick, and its last one when the log closes: what the writer holds is
-- flushed, what is still in the channel is not.
unfoldable pub flush_pending : Wal → List Write → Bool → Wal × List Answer
unfolding flush_batch
flush_pending w writes sync_ok = elim w.batch [
  | [] ↦ (w, [])
  | request ∷ requests ↦ flush_batch (record w { batch = [] }) writes sync_ok (request ∷ requests)
]

-- What a caller of `Rotate` or `Close` meets in the file system.
pub record FileCalls : Type 0 where
  pub writes : List Write
  pub sync_ok : Bool
  pub close_ok : Bool
  pub rename_ok : Bool
  pub open_ok : Bool

-- `Rotate` stops the writer, which flushes what it holds; a failure leaves the log closed.
unfoldable pub rotate : Wal → FileCalls → Wal × List Answer × Option WalError
rotate w os =
    let (flushed, answers) = flush_pending w os.writes os.sync_ok in
    let closed : Wal = record flushed { is_closed = true } in
    let moved : Wal = record closed {
      backups = closed.file ∷ closed.backups;
      file = [];
      synced = [];
    } in
    if w.is_closed
    then (w, [], some wal_closed)
    else if not os.close_ok
    then (closed, answers, some close_failed)
    else if not os.rename_ok
    then (closed, answers, some rename_failed)
    else if not os.open_ok
    then (moved, answers, some open_failed)
    else (record moved { seq = 0; is_closed = false }, answers, none)

-- `Close`; closing twice is no error.
unfoldable pub close : Wal → FileCalls → Wal × List Answer × Option WalError
close w os =
    let (flushed, answers) = flush_pending w os.writes os.sync_ok in
    if w.is_closed then (w, [], none) else (
      record flushed { is_closed = true },
      answers,
      if os.close_ok then none else some close_failed,
    )

unfoldable pub get_last_seq : Wal → ℕ
get_last_seq w = w.seq

pub data ReplayError {ℓ} (E : Type ℓ) : Type ℓ where
  decode_failed checksum_mismatch : ReplayError E
  handler_failed : E → ReplayError E

-- `Replay` over the records of the file, with the handler's state: it stops at the first record that
-- cannot be decoded, fails its checksum, or is refused by the handler.
module _ {ℓ κ} {S : Type ℓ} {E : Type κ} (crc32 : List ℕ → ℕ)
    (handler : S → Event → S × Option E) where
  unfoldable pub replay : S → List WalLine → S × Option (ReplayError E)
  replay s [] = (s, none)
  replay s (torn ∷ lines) = (s, some decode_failed)
  replay s (written e ∷ lines) =
      let (s', refused) = handler s e in
      let rest = replay s' lines in
      if verify_checksum crc32 e
      then (elim refused [ none ↦ rest | some error ↦ (s', some (handler_failed error)) ])
      else (s, some checksum_mismatch)
