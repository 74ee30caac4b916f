-- ===== src/Metrics.antt =====
-- internal/metrics/metrics.go: the collector. The Prometheus client is an argument: its counters, gauges,
-- histograms and registry with what the collector calls of them, and Go's float64 with its conversion
-- from int. The HTTP server is left out.
mod Tests
use raft_recovery.Prelude.{ℕ, ◌≡◌, refl, ap, ◌∙◌, Option, none, some, List, [], ◌∷◌, String}

pub record Prometheus : Type 1 where
  pub Float : Type 0
  pub Counter : Type 0
  pub Gauge : Type 0
  pub Histogram : Type 0
  pub float_of : ℕ → Float
  pub new_counter : String → String → Counter
  pub new_gauge : String → String → Gauge
  pub new_histogram : String → String → Histogram
  pub inc : Counter → Counter
  pub set : Gauge → Float → Gauge
  pub observe : Histogram → Float → Histogram
  -- Whether the metrics of these names can be registered; if not, `MustRegister` panics.
  pub registers : List String → Option (List String)

module _ (P : Prometheus) where
  pub record Collector : Type 0 where
    pub jobs_enqueued : P.Counter
    pub jobs_dispatched : P.Counter
    pub jobs_completed : P.Counter
    pub jobs_failed : P.Counter
    pub jobs_dead : P.Counter
    pub job_latency : P.Histogram
    pub recovery_time : P.Gauge
    pub jobs_pending : P.Gauge
    pub jobs_in_flight : P.Gauge

  abbrev names : List String
  names =
      "queue_jobs_enqueued_total" ∷ "queue_jobs_dispatched_total" ∷ "queue_jobs_completed_total"
      ∷ "queue_jobs_failed_total" ∷ "queue_jobs_dead_total" ∷ "queue_job_latency_seconds"
      ∷ "queue_recovery_time_seconds" ∷ "queue_jobs_pending" ∷ "queue_jobs_in_flight" ∷ []

  -- `none` is the panic of `MustRegister`.
  unfoldable pub new_collector : Option Collector
  new_collector = elim (P.registers names) [
    | none ↦ none
    | some registry ↦ some (record {
      jobs_enqueued = P.new_counter "queue_jobs_enqueued_total" "Total number of jobs enqueued";
      jobs_dispatched =
          P.new_counter "queue_jobs_dispatched_total" "Total number of jobs dispatched to workers";
      jobs_completed =
          P.new_counter "queue_jobs_completed_total" "Total number of jobs completed successfully";
      jobs_failed = P.new_counter "queue_jobs_failed_total" "Total number of jobs failed";
      jobs_dead =
          P.new_counter "queue_jobs_dead_total" "Total number of jobs moved to dead letter queue";
      job_latency = P.new_histogram "queue_job_latency_seconds" "Job processing latency in seconds";
      recovery_time =
          P.new_gauge "queue_recovery_time_seconds" "Time taken to recover from crash in seconds";
      jobs_pending = P.new_gauge "queue_jobs_pending" "Current number of pending jobs";
      jobs_in_flight = P.new_gauge "queue_jobs_in_flight" "Current number of in-flight jobs";
    })
  ]

  unfoldable pub record_enqueue : Collector → Collector
  record_enqueue c = record c { jobs_enqueued = P.inc c.jobs_enqueued }

  unfoldable pub record_dispatch : Collector → Collector
  record_dispatch c = record c { jobs_dispatched = P.inc c.jobs_dispatched }

  unfoldable pub record_completed : Collector → P.Float → Collector
  record_completed c latency_seconds = record c {
    jobs_completed = P.inc c.jobs_completed;
    job_latency = P.observe c.job_latency latency_seconds;
  }

  unfoldable pub record_failed : Collector → Collector
  record_failed c = record c { jobs_failed = P.inc c.jobs_failed }

  unfoldable pub record_dead : Collector → Collector
  record_dead c = record c { jobs_dead = P.inc c.jobs_dead }

  unfoldable pub set_recovery_time : Collector → P.Float → Collector
  set_recovery_time c seconds = record c { recovery_time = P.set c.recovery_time seconds }

  unfoldable pub update_queue_stats : Collector → ℕ → ℕ → Collector
  update_queue_stats c pending in_flight = record c {
    jobs_pending = P.set c.jobs_pending (P.float_of pending);
    jobs_in_flight = P.set c.jobs_in_flight (P.float_of in_flight);
  }
