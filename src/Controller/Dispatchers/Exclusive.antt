-- ===== src/Controller/Dispatchers/Exclusive.antt =====
-- internal/controller: a job is in one dispatcher's hands at most.
use raft_recovery.Prelude.{
  ℕ, zero, suc, ◌+◌, ◌≡◌, inl, refl, sym, ap, subst, true, some, List, [], ◌∷◌, String, lookup,
  arith, get_elem?, set, replicate, if_case,
}
use raft_recovery.Types.{Job}
use raft_recovery.JobManager.{JobManager, new_job_manager}
use raft_recovery.Wal.Event
use raft_recovery.Controller.Core.{Config, Controller, Logs, new_controller, append, with_manager}
use raft_recovery.Controller.Dispatch.{pop_batch, mark_all, poll, Polled, Clock}
use raft_recovery.Controller.Dispatch.Order.{ids_of}
use raft_recovery.Controller.Dispatch.Polling.{poll_all-job_manager}
use raft_recovery.Controller.History.{
  Call, submits, hands_out, polls, reports, acknowledges, ticks, commits,
}
use raft_recovery.Controller.History as History
use raft_recovery.Controller.Keeps.{
  Keeps, enqueue_jobs-keeps, handle_result-keeps, acknowledge-keeps, timeout_tick-keeps,
  apply_message-keeps, append-job_manager,
}
use raft_recovery.Controller.Dispatchers.{
  Dispatchers, Hand, free, logging, submitting, batch_hand, is_beside, take_batch, log_one,
  mark_batch, submit_one, Step, pops, logs_one, marks, submits_one, ends, beside, Steps, here, next,
  fresh,
}
use raft_recovery.Controller.Dispatchers.Tally.{
  occurrences, unmarked, held, Sole, is_named, IsKeyed, held-set, Sole-Keeps, named-Keeps,
  mark_all-Sole, mark_all-named, pop_batch-Sole, pop_batch-occurrences,
}

abbrev IsSingle : Dispatchers → Type 0
IsSingle s =
    IsKeyed s.controller.job_manager
    × ((k : String) → Sole (held k s.hands) k s.controller.job_manager)

-- A predicate that `Poll` keeps too is kept by every call beside the dispatchers.
beside_keeps :
    (V : JobManager → Type 0)
    → Keeps V
    → (c : Controller) (logs : Logs) (now : ℕ) (call : Call)
    → ((clock : Clock) (start max_jobs : ℕ) → V (poll c logs clock start max_jobs).0.job_manager)
    → is_beside call ≡ true
    → V c.job_manager
    → V (History.step c logs now call).job_manager
unfolding History.step
beside_keeps V keep c logs now (submits jobs) p b v = enqueue_jobs-keeps V keep logs now c jobs v
beside_keeps V keep c logs now (hands_out clock start) p b v = cc
beside_keeps V keep c logs now (polls clock start max_jobs) p b v = p clock start max_jobs
beside_keeps V keep c logs now (reports result) p b v =
    handle_result-keeps V keep logs now c result v
beside_keeps V keep c logs now (acknowledges result) p b v =
    acknowledge-keeps V keep logs now c result v
beside_keeps V keep c logs now ticks p b v = timeout_tick-keeps V keep logs now c v
beside_keeps V keep c logs now (commits command index) p b v =
    apply_message-keeps V keep logs now c.job_manager command index v

unmarked-batch_hand : (jobs : List Job) → unmarked (batch_hand jobs) ≡ ids_of jobs
unfolding batch_hand
unmarked-batch_hand [] = refl
unmarked-batch_hand (job ∷ jobs) = refl

nothing : (k : String) → occurrences k [] ≡ 0
unfolding occurrences
nothing k = refl

module _ (s : Dispatchers) (v : IsSingle s) where
  -- A step in which the manager stays and a hand holds what it held.
  same_hand :
      (i : ℕ) (old new : Hand) (k : String)
      → get_elem? s.hands i ≡ some old
      → occurrences k (unmarked new) ≡ occurrences k (unmarked old)
      → held k (set s.hands i new) ≡ held k s.hands
  same_hand i old new k h e = omega (arith, held-set k s.hands i old new h, e)

  take_batch-IsSingle : (i : ℕ) → get_elem? s.hands i ≡ some free → IsSingle (take_batch s i)
  unfolding take_batch
  take_batch-IsSingle i h =
      let jm = s.controller.job_manager in
      let batch = (pop_batch jm 10).1 in
      (
        λ k.
            subst (λ jobs. is_named k (lookup k jobs) ≡ true)
              (sym (pop_batch-occurrences k jm 10 v.0).1) (v.0 k),
        λ k.
            let e = held-set k s.hands i free (batch_hand batch) h in
            let f : occurrences k (unmarked (batch_hand batch)) ≡ occurrences k (ids_of batch) =
              ap (occurrences k) (unmarked-batch_hand batch) in
            let n : held k s.hands + occurrences k (ids_of batch)
                ≡ held k (set s.hands i (batch_hand batch)) =
              omega (arith, e, f, nothing k) in
            subst (λ n. Sole n k (pop_batch jm 10).0) n
              (pop_batch-Sole (held k s.hands) k jm 10 v.0 (v.1 k)),
      )

  mark_batch-IsSingle :
      (i : ℕ) (clock : Clock) (start : ℕ) (batch : List Job)
      → get_elem? s.hands i ≡ some (logging [] batch)
      → IsSingle (mark_batch s i clock start batch)
  unfolding mark_batch
  mark_batch-IsSingle i clock start batch h =
      let jm = s.controller.job_manager in
      let deadline = start + s.controller.config.task_timeout in
      (
        λ k. mark_all-named k jm clock deadline batch (v.0 k),
        λ k. mark_all-Sole (held k (set s.hands i (submitting batch))) k jm clock deadline batch (
            let n : held k s.hands
                ≡ held k (set s.hands i (submitting batch)) + occurrences k (ids_of batch) =
              omega
                (arith, held-set k s.hands i (logging [] batch) (submitting batch) h, nothing k) in
            subst (λ n. Sole n k jm) n (v.1 k)),
      )

  -- The queue, the jobs and what the hands hold stay.
  same_hand-IsSingle :
      (i : ℕ) (old new : Hand) (c' : Controller)
      → get_elem? s.hands i ≡ some old
      → unmarked new ≡ unmarked old
      → c'.job_manager ≡ s.controller.job_manager
      → IsKeyed c'.job_manager × ((k : String) → Sole (held k (set s.hands i new)) k c'.job_manager)
  same_hand-IsSingle i old new c' h e same =
      subst (λ jm. IsKeyed jm × ((k : String) → Sole (held k (set s.hands i new)) k jm)) (sym same)
        (
          v.0,
          λ k.
              subst (λ n. Sole n k s.controller.job_manager)
                (sym (same_hand i old new k h (ap (occurrences k) e))) (v.1 k),
        )

poll_keeps :
    (V : JobManager → Type 0) (c : Controller) (logs : Logs) (clock : Clock) (start max_jobs : ℕ)
    → V c.job_manager
    → V (
        mark_all
          (pop_batch c.job_manager max_jobs).0
          clock
          (start + c.config.task_timeout)
          (pop_batch c.job_manager max_jobs).1)
    → V (poll c logs clock start max_jobs).0.job_manager
unfolding poll
poll_keeps V c logs clock start max_jobs v w =
    let (popped, jobs) = pop_batch c.job_manager max_jobs in
    if_case (λ (r : Controller × Polled). V r.0.job_manager) c.stopped (λ e. v)
      (λ e.
        subst V
          (sym (
            poll_all-job_manager (with_manager c popped) logs clock (start + c.config.task_timeout)
              jobs))
          w)

module _ (s : Dispatchers) (v : IsSingle s) (logs : Logs) (now : ℕ) where
  poll-named :
      (k : String) (clock : Clock) (start max_jobs : ℕ)
      → is_named k (lookup k (poll s.controller logs clock start max_jobs).0.job_manager.jobs)
        ≡ true
  poll-named k clock start max_jobs =
      poll_keeps (λ m. is_named k (lookup k m.jobs) ≡ true) s.controller logs clock start max_jobs
        (v.0 k)
        (mark_all-named k (pop_batch s.controller.job_manager max_jobs).0 clock
          (start + s.controller.config.task_timeout) (pop_batch s.controller.job_manager max_jobs).1
          (subst (λ jobs. is_named k (lookup k jobs) ≡ true)
            (sym (pop_batch-occurrences k s.controller.job_manager max_jobs v.0).1) (v.0 k)))

  poll-Sole :
      (k : String) (clock : Clock) (start max_jobs : ℕ)
      → Sole (held k s.hands) k (poll s.controller logs clock start max_jobs).0.job_manager
  poll-Sole k clock start max_jobs =
      poll_keeps (Sole (held k s.hands) k) s.controller logs clock start max_jobs (v.1 k) (
        mark_all-Sole (held k s.hands) k (pop_batch s.controller.job_manager max_jobs).0 clock
          (start + s.controller.config.task_timeout) (pop_batch s.controller.job_manager max_jobs).1
          (pop_batch-Sole (held k s.hands) k s.controller.job_manager max_jobs v.0 (v.1 k)))

  beside-IsSingle :
      (call : Call)
      → is_beside call ≡ true
      → IsSingle (record s { controller = History.step s.controller logs now call })
  beside-IsSingle call b = (
    λ k.
        beside_keeps (λ m. is_named k (lookup k m.jobs) ≡ true) (named-Keeps k) s.controller logs
          now call (poll-named k) b (v.0 k),
    λ k.
        beside_keeps (Sole (held k s.hands) k) (Sole-Keeps (held k s.hands) k) s.controller logs now
          call (poll-Sole k) b (v.1 k),
  )

Step-IsSingle : {s t : Dispatchers} → Step s t → IsSingle s → IsSingle t
Step-IsSingle {s} (pops i h) v = take_batch-IsSingle s v i h
Step-IsSingle {s} (logs_one i logs job left batch h) v =
    unfold log_one in
    same_hand-IsSingle s v i (logging (job ∷ left) batch) (logging left batch)
      (append s.controller logs Event.dispatch job.id) h refl
      (append-job_manager s.controller logs Event.dispatch job.id)
Step-IsSingle {s} (marks i clock start batch h) v = mark_batch-IsSingle s v i clock start batch h
Step-IsSingle {s} (submits_one i job left h) v =
    unfold submit_one in
    same_hand-IsSingle s v i (submitting (job ∷ left)) (submitting left) s.controller h refl refl
Step-IsSingle {s} (ends i h) v =
    same_hand-IsSingle s v i (submitting []) free s.controller h refl refl
Step-IsSingle {s} (beside call logs now b) v = beside-IsSingle s v logs now call b

held_free : (k : String) (count : ℕ) → held k (replicate count free) ≡ 0
unfolding held
held_free k zero = refl
held_free k (suc count) = omega (arith, held_free k count, nothing k)

fresh-IsSingle : (config : Config) (count : ℕ) → IsSingle (fresh config count)
unfolding new_controller new_job_manager lookup
fresh-IsSingle config count = (λ k. refl, λ k. inl (omega (arith, held_free k count, nothing k)))

-- In every interleaving of any number of dispatchers with each other and with the calls of clients,
-- workers, timers and Raft, on a new controller, whichever appends to the log fail: counted over the
-- queue and the batches that the dispatchers have popped and not yet marked, a job stands at no place, or
-- at one and is then pending or dead.
pub dispatch_exclusive :
    (config : Config) (count : ℕ) {s : Dispatchers} (k : String)
    → Steps (fresh config count) s
    → Sole (held k s.hands) k s.controller.job_manager
dispatch_exclusive config count k run = (go run).1 k
  where
    go : {s : Dispatchers} → Steps (fresh config count) s → IsSingle s
    go here = fresh-IsSingle config count
    go (next r st) = Step-IsSingle st (go r)
