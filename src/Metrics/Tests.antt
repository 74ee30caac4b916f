-- ===== src/Metrics/Tests.antt =====
-- internal/metrics/metrics.go: a collector on counters that are numbers.
use raft_recovery.Prelude.{ℕ, ◌+◌, ◌≡◌, refl, Option, none, some, List, [], ◌∷◌}
use raft_recovery.Metrics.{Prometheus, new_collector, record_completed, update_queue_stats}

abbrev numbers : Prometheus
numbers = record {
  Float = ℕ;
  Counter = ℕ;
  Gauge = ℕ;
  Histogram = List ℕ;
  float_of = λ n. n;
  new_counter = λ name help. 0;
  new_gauge = λ name help. 0;
  new_histogram = λ name help. [];
  inc = λ n. n + 1;
  set = λ old new. new;
  observe = λ seen latency. latency ∷ seen;
  registers = λ registry. some registry;
}

-- The gauge and the latencies after two completed jobs.
abbrev after_two : Option (ℕ × (List ℕ × ℕ))
after_two = elim (new_collector numbers) [
  | none ↦ none
  | some c ↦
      (let c' =
          update_queue_stats numbers (record_completed numbers (record_completed numbers c 7) 9) 4
            1 in
        some (c'.jobs_completed, (c'.job_latency, c'.jobs_pending)))
]

counts_two : after_two ≡ some (2, (9 ∷ 7 ∷ [], 4))
unfolding new_collector record_completed update_queue_stats
counts_two = refl
