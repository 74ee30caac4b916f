-- ===== src/Controller/Dispatchers.antt =====
-- internal/controller/controller.go: the goroutines of `dispatchLoop`, interleaved with each other and
-- with the calls of clients, workers, timers and Raft. What `dispatchLoop` does under the mutex is one
-- step, and so is each append to the log and each submission to the pool.
pub mod Tally
pub mod Exclusive
mod Tests
use raft_recovery.Prelude.{
  ℕ, ◌+◌, ◌≡◌, Bool, true, false, Option, none, some, List, [], ◌∷◌, ◌++◌, String, get_elem?, set,
  replicate,
}
use raft_recovery.Types.{Job}
use raft_recovery.Wal.Event
use raft_recovery.Controller.Core.{Config, Controller, Logs, new_controller, append, with_manager}
use raft_recovery.Controller.Dispatch.{Task, Clock, pop_batch, mark_all}
use raft_recovery.Controller.History.{
  Call, submits, hands_out, polls, reports, acknowledges, ticks, commits,
}
use raft_recovery.Controller.History as History

-- Where a dispatcher stands: before it pops, in phase 1 with the jobs left to log and the batch, or in
-- phase 3 with the jobs left to submit.
pub data Hand : Type 0 where
  free : Hand
  logging : List Job → List Job → Hand
  submitting : List Job → Hand

-- An empty batch makes the dispatcher sleep and try again.
unfoldable pub batch_hand : List Job → Hand
batch_hand [] = free
batch_hand (job ∷ jobs) = logging (job ∷ jobs) (job ∷ jobs)

-- `submitted` is what the pool was handed, in order.
pub record Dispatchers : Type 0 where
  pub controller : Controller
  pub hands : List Hand
  pub submitted : List Task

abbrev pub with_hand : Dispatchers → ℕ → Hand → Dispatchers
with_hand s i hand = record s { hands = set s.hands i hand }

-- The calls that take place beside the dispatchers.
abbrev pub is_beside : Call → Bool
is_beside (hands_out clock start) = false
is_beside _ = true

unfoldable pub take_batch : Dispatchers → ℕ → Dispatchers
take_batch s i =
    let popped = pop_batch s.controller.job_manager 10 in
    record (with_hand s i (batch_hand popped.1)) { controller = with_manager s.controller popped.0 }

unfoldable pub log_one : Dispatchers → ℕ → Logs → Job → List Job → List Job → Dispatchers
log_one s i logs job left batch = record (with_hand s i (logging left batch)) {
  controller = append s.controller logs Event.dispatch job.id;
}

unfoldable pub mark_batch : Dispatchers → ℕ → Clock → ℕ → List Job → Dispatchers
mark_batch s i clock start batch = record (with_hand s i (submitting batch)) {
  controller =
      with_manager s.controller
        (mark_all s.controller.job_manager clock (start + s.controller.config.task_timeout) batch);
}

unfoldable pub submit_one : Dispatchers → ℕ → Job → List Job → Dispatchers
submit_one s i job left = record (with_hand s i (submitting left)) {
  submitted =
      s.submitted
      ++ record { id = job.id; payload = job.payload; timeout = s.controller.config.task_timeout }
        ∷ [];
}

pub data Step (s : Dispatchers) : Dispatchers → Type 0 where
  pops : (i : ℕ) → get_elem? s.hands i ≡ some free → Step s (take_batch s i)
  logs_one :
      (i : ℕ) (logs : Logs) (job : Job) (left batch : List Job)
      → get_elem? s.hands i ≡ some (logging (job ∷ left) batch)
      → Step s (log_one s i logs job left batch)
  marks :
      (i : ℕ) (clock : Clock) (start : ℕ) (batch : List Job)
      → get_elem? s.hands i ≡ some (logging [] batch)
      → Step s (mark_batch s i clock start batch)
  submits_one :
      (i : ℕ) (job : Job) (left : List Job)
      → get_elem? s.hands i ≡ some (submitting (job ∷ left))
      → Step s (submit_one s i job left)
  ends : (i : ℕ) → get_elem? s.hands i ≡ some (submitting []) → Step s (with_hand s i free)
  beside :
      (call : Call) (logs : Logs) (now : ℕ)
      → is_beside call ≡ true
      → Step s (record s { controller = History.step s.controller logs now call })

pub data Steps (s : Dispatchers) : Dispatchers → Type 0 where
  here : Steps s s
  next : {t u : Dispatchers} → Steps s t → Step t u → Steps s u

-- A new controller with its dispatchers, of which `Start` makes four.
abbrev pub fresh : Config → ℕ → Dispatchers
fresh config count = record {
  controller = new_controller config;
  hands = replicate count free;
  submitted = [];
}
