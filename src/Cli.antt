-- ===== src/Cli.antt =====
-- internal/cli/cli.go: what the commands start and submit. Reading files, YAML and JSON are outside: a
-- configuration that cannot be read is none, and the jobs of a file are those that were read. Left out
-- are printing, the wait for a signal, and the errors of the parts that a command starts.
pub mod Submitting
pub mod Enqueueing
use raft_recovery.Prelude.{
  int64, ℕ, ◌+◌, ◌*◌, Bool, true, false, Option, none, some, List, [], ◌∷◌, String, str_eq, map,
  if◌then◌else◌, length, ltb,
}
use raft_recovery.Types.{Job, other}
use raft_recovery.Controller.Core.{Controller, Logs, EnqueueError, enqueue_jobs, get_stats}
use raft_recovery.JobManager.{Stats}
use raft_recovery.Server.Jobs.{SubmitJobRequest, SubmitJobResponse, submitted}

pub record Config : Type 0 where
  pub worker_count : ℕ
  pub task_timeout : ℕ
  pub wal_dir : String
  pub max_segment_size : ℕ
  pub sync_interval : ℕ
  pub retention_seconds : ℕ
  pub buffer_size : ℕ
  pub flush_interval_ms : ℕ
  pub snapshot_dir : String
  pub interval_seconds : ℕ
  pub retention_count : ℕ
  pub metrics_enabled : Bool
  pub metrics_port : ℕ

-- The configuration of a controller; durations are in nanoseconds.
pub record ControllerConfig : Type 0 where
  pub worker_count : ℕ
  pub task_timeout : ℕ
  pub snapshot_interval : ℕ
  pub max_retry : ℕ
  pub wal_path : String
  pub snapshot_path : String
  pub wal_buffer_size : ℕ
  pub wal_flush_interval : ℕ
  pub disable_dispatch_loop : Bool

unfoldable pub controller_config : Config → Bool → ControllerConfig
controller_config cfg disable = record {
  worker_count = cfg.worker_count;
  task_timeout = cfg.task_timeout;
  snapshot_interval = cfg.interval_seconds * 1000000000;
  max_retry = 3;
  wal_path = cfg.wal_dir;
  snapshot_path = cfg.snapshot_dir;
  wal_buffer_size = cfg.buffer_size;
  wal_flush_interval = cfg.flush_interval_ms * 1000000;
  disable_dispatch_loop = disable;
}

-- What `run` starts: a pool of workers for a master, or a controller, with the port of the gRPC server
-- and that of the metrics if it serves them. The server of a master has no node of Raft.
pub data Launch : Type 0 where
  config_failed missing_master : Launch
  worker_node : ℕ → String → Launch
  controller_node : ControllerConfig → Option ℕ → Option ℕ → Launch

unfoldable pub run_worker_node : Config → String → Launch
run_worker_node cfg master_addr =
    if str_eq master_addr "" then missing_master else worker_node cfg.worker_count master_addr

unfoldable pub run_controller_node : Config → String → ℕ → Launch
unfolding controller_config
run_controller_node cfg mode port =
    controller_node (controller_config cfg (str_eq mode "master"))
      (if str_eq mode "master" then some port else none)
      (if cfg.metrics_enabled then some cfg.metrics_port else none)

unfoldable pub run_system : Option Config → String → ℕ → String → Launch
unfolding run_worker_node run_controller_node
run_system none mode port master_addr = config_failed
run_system (some cfg) mode port master_addr =
    if str_eq mode "worker"
    then run_worker_node cfg master_addr
    else run_controller_node cfg mode port

-- A job of the file.
pub record JobInput : Type 0 where
  pub id : String
  pub payload : String
  pub timeout_ms : ℕ

abbrev pub submit_request : JobInput → SubmitJobRequest
submit_request j = record {
  job_id = j.id;
  payload = j.payload;
  payload_valid = true;
  timeout_ms = j.timeout_ms;
}

abbrev pub is_submitted : Option SubmitJobResponse → Bool
is_submitted (some (submitted id)) = true
is_submitted _ = false

-- The loop of remote submission: a job that fails or is refused is passed over. `call` is the call of
-- the gRPC client on a master that goes on in a state.
unfoldable pub submit_all :
    {S : Type 0} → (S → SubmitJobRequest → S × Option SubmitJobResponse) → S → List JobInput → S × ℕ
submit_all call s [] = (s, 0)
submit_all call s (j ∷ js) =
    let (s', resp) = call s (submit_request j) in
    let (s'', success_count) = submit_all call s' js in
    (s'', if is_submitted resp then success_count + 1 else success_count)

-- A job without a status; the manager sets it.
abbrev pub local_job : JobInput → Job
local_job j = record {
  id = j.id;
  payload = j.payload;
  status = other "";
  attempt = 0;
  timeout = int64 (j.timeout_ms * 1000000);
  deadline = none;
  created_at = 0;
  updated_at = 0;
  worker_id = "";
}

-- What the loops of a controller do beside a call.
abbrev pub Loops : Type 0
Loops = Controller → Controller

-- Local submission, on a controller whose loops are running: `before` is what they do from the start on,
-- until `EnqueueJobs` takes the mutex, and `after` what they do until the command ends. The controller is
-- not stopped, so that its state is lost then, but for the files.
unfoldable pub enqueue_local :
    Loops → Loops → Controller → Logs → ℕ → List JobInput → Controller × Option EnqueueError
enqueue_local before after c logs now inputs =
    let (c', error) = enqueue_jobs (before c) logs now (map local_job inputs) in (after c', error)

-- The total that `status` shows.
unfoldable pub status_total : Controller → ℕ
status_total c =
    let stats = get_stats c in stats.pending + stats.in_flight + stats.completed + stats.dead

-- What `enqueue` comes to.
pub data Enqueued (S : Type 0) : Type 0 where
  file_required read_failed parse_failed connect_failed start_failed : Enqueued S
  remotely : S → ℕ → Enqueued S
  locally : Controller → Option EnqueueError → Enqueued S

-- Local submission: `global` is the controller that is already there, and `made` the one that the
-- configuration, `NewController` and `Start` give, if none of them fails.
unfoldable pub enqueue_here :
    {S : Type 0}
    → Loops
    → Loops
    → Option Controller
    → Option Controller
    → Logs
    → ℕ
    → List JobInput
    → Enqueued S
unfolding enqueue_local
enqueue_here before after (some c) made logs now inputs =
    let (c', error) = enqueue_local before after c logs now inputs in locally c' error
enqueue_here before after none none logs now inputs = start_failed
enqueue_here before after none (some c) logs now inputs =
    let (c', error) = enqueue_local before after c logs now inputs in locally c' error

-- The content of a job file: unreadable, no JSON, or jobs.
pub data JobFile : Type 0 where
  unreadable unparsable : JobFile
  jobs_of_file : List JobInput → JobFile

unfoldable pub enqueue_file :
    {S : Type 0}
    → (S → SubmitJobRequest → S × Option SubmitJobResponse)
    → S
    → Loops
    → Loops
    → Option Controller
    → Option Controller
    → Logs
    → ℕ
    → String
    → JobFile
    → String
    → Bool
    → Enqueued S
unfolding submit_all enqueue_here
enqueue_file call s before after global made logs now path unreadable master_addr connects =
    if str_eq path "" then file_required else read_failed
enqueue_file call s before after global made logs now path unparsable master_addr connects =
    if str_eq path "" then file_required else parse_failed
enqueue_file call s before after global made logs now path (jobs_of_file inputs) master_addr
      connects =
    let (s', success_count) = submit_all call s inputs in
    if str_eq path ""
    then file_required
    else if str_eq master_addr ""
    then enqueue_here before after global made logs now inputs
    else if connects
    then remotely s' success_count
    else connect_failed

-- What `status` shows: the configuration, the numbers of jobs if a controller is there, with the parts
-- of the rate of success, and the port of the metrics if they are enabled.
pub record QueueView : Type 0 where
  pub total : ℕ
  pub stats : Stats
  pub success_rate : Option (ℕ × ℕ)

pub record StatusView : Type 0 where
  pub config : Config
  pub queue : Option QueueView
  pub metrics : Option ℕ

unfoldable pub queue_view : Controller → QueueView
unfolding status_total
queue_view c =
    let total = status_total c in
    let stats = get_stats c in
    record {
      total = total;
      stats = stats;
      success_rate = if ltb 0 total then some (stats.completed, total) else none;
    }

unfoldable pub show_status : Option Config → Option Controller → Option StatusView
unfolding queue_view
show_status none global = none
show_status (some cfg) global = some (record {
  config = cfg;
  queue = elim global [ none ↦ none | some c ↦ some (queue_view c) ];
  metrics = if cfg.metrics_enabled then some cfg.metrics_port else none;
})
