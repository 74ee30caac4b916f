-- ===== src/Controller/Dispatchers/Tally.antt =====
-- internal/controller: how often a job stands in the queue and in the hands of the dispatchers, over the
-- operations of the job manager.
use raft_recovery.Prelude.{
  ℕ, zero, suc, ◌+◌, ◌≤◌, ◌≡◌, ◌⊎◌, inl, inr, refl, Bool, true, Option, none, some, List, [], ◌∷◌,
  ◌++◌, String, str_eq, eq_iff, lookup, lookup-insert, arith, subst, if◌then◌else◌, Option-cases,
  get_elem?, set,
}
use raft_recovery.Types.{Job, is_pending, is_dead}
use raft_recovery.JobManager.{
  JobManager, enqueue, pop_pending, mark_in_flight, mark_completed, requeue, mark_dead,
  set_last_applied_index,
}
use raft_recovery.JobManager.Indexes.{has}
use raft_recovery.Controller.Core.{bump_attempt}
use raft_recovery.Controller.Dispatch.{pop_batch, mark_all, Clock}
use raft_recovery.Controller.Dispatch.Order.{ids_of}
use raft_recovery.Controller.Dispatchers.{Hand, free, logging, submitting}
use raft_recovery.Controller.Keeps.{Keeps}

unfoldable pub occurrences : String → List String → ℕ
occurrences k [] = 0
occurrences k (id ∷ ids) = let rest = occurrences k ids in if str_eq id k then suc rest else rest

-- The jobs that a dispatcher has popped and not yet marked.
abbrev pub unmarked : Hand → List String
unmarked free = []
unmarked (logging left batch) = ids_of batch
unmarked (submitting left) = []

unfoldable pub held : String → List Hand → ℕ
unfolding occurrences
held k [] = 0
held k (hand ∷ hands) = occurrences k (unmarked hand) + held k hands

-- Counting n more, the job stands nowhere, or at one place and is pending or dead.
abbrev pub Sole : ℕ → String → JobManager → Type 0
Sole n k jm =
    (occurrences k jm.queue + n ≡ 0)
    ⊎ ((occurrences k jm.queue + n ≡ 1)
        × ((has is_pending (lookup k jm.jobs) ≡ true) ⊎ (has is_dead (lookup k jm.jobs) ≡ true)))

-- A stored job has the identifier.
abbrev pub is_named : String → Option Job → Bool
is_named k none = true
is_named k (some job) = str_eq job.id k

abbrev pub IsKeyed : JobManager → Type 0
IsKeyed jm = (k : String) → is_named k (lookup k jm.jobs) ≡ true

pub occurrences-append :
    (k : String) (ids more : List String)
    → occurrences k (ids ++ more) ≡ occurrences k ids + occurrences k more
unfolding occurrences
occurrences-append k [] more = omega arith
occurrences-append k (id ∷ ids) more = ground (arith, occurrences-append k ids more)

pub held-set :
    (k : String) (hands : List Hand) (i : ℕ) (old new : Hand)
    → get_elem? hands i ≡ some old
    → held k (set hands i new) + occurrences k (unmarked old)
      ≡ held k hands + occurrences k (unmarked new)
unfolding held
held-set k [] i old new h = cc
held-set k (hand ∷ hands) zero old new h = ground arith
held-set k (hand ∷ hands) (suc i) old new h = omega (arith, held-set k hands i old new h)

module _ (n : ℕ) (k : String) where
  pub Sole-Keeps : Keeps (Sole n k)
  unfolding enqueue mark_completed requeue mark_dead bump_attempt set_last_applied_index occurrences
  Sole-Keeps = record {
    enqueues = λ jm now job v.
        grind (arith, eq_iff job.id k, lookup-insert, occurrences-append k jm.queue (job.id ∷ []));
    completes = λ jm now id v. grind (arith, eq_iff id k, lookup-insert);
    requeues = λ jm now id v.
        grind (arith, eq_iff id k, lookup-insert, occurrences-append k jm.queue (id ∷ []));
    kills = λ jm now id v. grind (arith, eq_iff id k, lookup-insert);
    bumps = λ jm id job h v. grind (arith, eq_iff id k, lookup-insert);
    applies = λ jm index v. v;
  }

pub named-Keeps : (k : String) → Keeps (λ jm. is_named k (lookup k jm.jobs) ≡ true)
unfolding enqueue mark_completed requeue mark_dead bump_attempt set_last_applied_index
named-Keeps k = record {
  enqueues = λ jm now job v. grind (arith, eq_iff job.id k, lookup-insert);
  completes = λ jm now id v. grind (arith, eq_iff id k, lookup-insert);
  requeues = λ jm now id v. grind (arith, eq_iff id k, lookup-insert);
  kills = λ jm now id v. grind (arith, eq_iff id k, lookup-insert);
  bumps = λ jm id job h v. grind (arith, eq_iff id k, lookup-insert);
  applies = λ jm index v. v;
}

mark_in_flight-named :
    (k id : String) (jm : JobManager) (now deadline : ℕ)
    → is_named k (lookup k jm.jobs) ≡ true
    → is_named k (lookup k (mark_in_flight jm now id deadline).0.jobs) ≡ true
unfolding mark_in_flight
mark_in_flight-named k id jm now deadline v = grind (arith, eq_iff id k, lookup-insert)

pub mark_all-named :
    (k : String) (jm : JobManager) (clock : Clock) (deadline : ℕ) (jobs : List Job)
    → is_named k (lookup k jm.jobs) ≡ true
    → is_named k (lookup k (mark_all jm clock deadline jobs).jobs) ≡ true
unfolding mark_all
mark_all-named k jm clock deadline [] v = v
mark_all-named k jm clock deadline (job ∷ jobs) v =
    mark_all-named k ((mark_in_flight jm (clock job.id) job.id deadline).0) clock deadline jobs
      (mark_in_flight-named k job.id jm (clock job.id) deadline v)

mark_in_flight-Sole :
    (n : ℕ) (k id : String) (jm : JobManager) (now deadline : ℕ)
    → Sole (n + occurrences k (id ∷ [])) k jm
    → Sole n k (mark_in_flight jm now id deadline).0
unfolding mark_in_flight occurrences
mark_in_flight-Sole n k id jm now deadline v = grind (arith, eq_iff id k, lookup-insert)

occurrences_cons :
    (k id : String) (ids : List String)
    → occurrences k (id ∷ ids) ≡ occurrences k (id ∷ []) + occurrences k ids
unfolding occurrences
occurrences_cons k id ids = ground arith

-- A batch that is marked leaves the hand of its dispatcher.
pub mark_all-Sole :
    (n : ℕ) (k : String) (jm : JobManager) (clock : Clock) (deadline : ℕ) (jobs : List Job)
    → Sole (n + occurrences k (ids_of jobs)) k jm
    → Sole n k (mark_all jm clock deadline jobs)
unfolding mark_all
mark_all-Sole n k jm clock deadline [] v = unfold occurrences in ground arith
mark_all-Sole n k jm clock deadline (job ∷ jobs) v =
    let e : n + occurrences k (ids_of (job ∷ jobs))
        ≡ (n + occurrences k (ids_of jobs)) + occurrences k (job.id ∷ []) =
      omega (arith, occurrences_cons k job.id (ids_of jobs)) in
    mark_all-Sole n k ((mark_in_flight jm (clock job.id) job.id deadline).0) clock deadline jobs (
      mark_in_flight-Sole (n + occurrences k (ids_of jobs)) k job.id jm (clock job.id) deadline
        (subst (λ m. Sole m k jm) e v))

pop_batch_tally :
    (k : String) (jm : JobManager) (count : ℕ) (queue : List String)
    → IsKeyed jm
    → (occurrences k (pop_batch (record jm { queue = queue }) count).0.queue
          + occurrences k (ids_of (pop_batch (record jm { queue = queue }) count).1)
        ≤ occurrences k queue)
      × ((pop_batch (record jm { queue = queue }) count).0.jobs ≡ jm.jobs)
unfolding pop_batch pop_pending occurrences
pop_batch_tally k jm zero queue keyed = (omega arith, refl)
pop_batch_tally k jm (suc count) [] keyed = (omega arith, refl)
pop_batch_tally k jm (suc count) (id ∷ queue) keyed =
    let ih = pop_batch_tally k jm count queue keyed in
    elim (Option-cases (lookup id jm.jobs)) [
      | inl unknown ↦ rw (unknown, pop_batch) (ground arith, refl)
      | inr (job, known) ↦
          let same : job.id ≡ id = ground (arith, keyed id, eq_iff job.id id) in
          rw (known, pop_batch) (ground (arith, ih.0, eq_iff job.id k, eq_iff id k), ih.1)
    ]

-- What a batch holds has left the queue, and the jobs stay as they are.
pub pop_batch-occurrences :
    (k : String) (jm : JobManager) (count : ℕ)
    → IsKeyed jm
    → (occurrences k (pop_batch jm count).0.queue + occurrences k (ids_of (pop_batch jm count).1)
        ≤ occurrences k jm.queue)
      × ((pop_batch jm count).0.jobs ≡ jm.jobs)
pop_batch-occurrences k jm count keyed = pop_batch_tally k jm count jm.queue keyed

pub pop_batch-Sole :
    (n : ℕ) (k : String) (jm : JobManager) (count : ℕ)
    → IsKeyed jm
    → Sole n k jm
    → Sole (n + occurrences k (ids_of (pop_batch jm count).1)) k (pop_batch jm count).0
pop_batch-Sole n k jm count keyed v =
    let p = pop_batch-occurrences k jm count keyed in ground (arith, p.0, p.1)
