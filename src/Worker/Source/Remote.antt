-- ===== src/Worker/Source/Remote.antt =====
-- internal/worker/grpc_source.go and internal/server/server.go: the worker's source over the server's
-- handlers.
mod Tests
use raft_recovery.Prelude.{
  ℕ, ◌+◌, ◌*◌, ◌/◌, ◌%◌, ◌≡◌, ◌≢◌, ◌↔◌, refl, sym, ap, ◌∙◌, Bool, true, false, Option, none, some,
  List, [], ◌∷◌, String, map, str_eq, eq_iff, ltb, if◌then◌else◌, arith, lookup, insert,
  lookup-insert, inl, inr, Option-cases, ◌<◌, ◌^◌, int32, int64, sign_extend,
}
use mathlib.Core.Option as Option
use raft_recovery.Types.{Job, JobStatus, pending, in_flight, completed, dead, other}
use raft_recovery.Messages.{
  HeartbeatRequest, HeartbeatResponse, RegisterWorkerRequest, RegisterWorkerResponse,
}
use raft_recovery.Server.Jobs.{map_status_to_pb as server_status}
use raft_recovery.Server.Polling.{pb_job}
use raft_recovery.Server.Registry.{
  Registry, WorkerInfo, register_worker, renew, send_heartbeat, lease_duration,
}
use raft_recovery.Worker.Source.{
  GrpcJobSource, job_of, payload_of, map_pb_status_to_type, heartbeat, register,
}

abbrev pub IsKnown : JobStatus → Type 0
IsKnown status = (s : String) → status ≢ other s

status_way :
    (status : JobStatus) → (map_pb_status_to_type (server_status status) ≡ status) ↔ IsKnown status
unfolding map_pb_status_to_type server_status
status_way pending = (λ e s. cc, λ k. refl)
status_way in_flight = (λ e s. cc, λ k. refl)
status_way completed = (λ e s. cc, λ k. refl)
status_way dead = (λ e s. cc, λ k. refl)
status_way (other s) = (λ e. cc, λ k. absurd (k s refl))

abbrev read_deadline : ℕ → Option ℕ
read_deadline ms = if ltb 0 ms then some ms else none

abbrev sent_deadline : Option ℕ → ℕ
sent_deadline deadline = elim deadline [ none ↦ 0 | some d ↦ d ]

deadline_way :
    (deadline : Option ℕ)
    → (read_deadline (sent_deadline deadline) ≡ deadline) ↔ (deadline ≢ some 0)
deadline_way none = (λ e. cc, λ k. refl)
deadline_way (some d) = (λ e. ground arith, λ k. ground (arith, k))

timeout_way :
    (timeout : ℕ)
    → timeout < 2 ^ 63
    → (int64 (timeout / 1000000 * 1000000) ≡ timeout) ↔ (timeout % 1000000 ≡ 0)
timeout_way timeout h = (λ e. omega arith, λ e. omega arith)

attempt_way :
    (attempt : ℕ) → attempt < 2 ^ 63 → (sign_extend (int32 attempt) ≡ attempt) ↔ (attempt < 2 ^ 31)
attempt_way attempt h = (λ e. ground arith, λ e. ground arith)

payload_way :
    (decode : String → Option String) (payload : String)
    → decode payload ≡ some payload
    → payload ≢ ""
    → payload_of decode payload ≡ payload
payload_way decode payload d full = rw d (ground (arith, eq_iff payload ""))

-- A job whose payload is decoded as it was, with an attempt and a timeout that are not negative and fit
-- into 64 bits with a sign: it comes to a worker as it stands, with the worker's name, exactly when its
-- attempt fits into 32 bits with a sign, its timeout is a whole number of milliseconds, its deadline is not
-- at 0, and its status is one of the four.
pub job_of-pb_job_iff :
    (decode : String → Option String) (worker : String) (job : Job)
    → decode job.payload ≡ some job.payload
    → job.payload ≢ ""
    → job.attempt < 2 ^ 63
    → job.timeout < 2 ^ 63
    → (job_of decode (pb_job worker job) ≡ record job { worker_id = worker }) ↔ (
        (job.attempt < 2 ^ 31)
        × (job.timeout % 1000000 ≡ 0)
        × (job.deadline ≢ some 0)
        × IsKnown job.status)
unfolding job_of pb_job
job_of-pb_job_iff decode worker job d full few short =
    let (n, n') = attempt_way job.attempt few in
    let (a, a') = timeout_way job.timeout short in
    let (b, b') = deadline_way job.deadline in
    let (k, k') = status_way job.status in
    (
      (λ e. (
        n (ap (λ x. x.attempt) e),
        a (ap (λ x. x.timeout) e),
        b (ap (λ x. x.deadline) e),
        k (ap (λ x. x.status) e),
      )),
      (λ (m, t, l, s) i. record job {
        payload = payload_way decode job.payload d full i;
        status = k' s i;
        attempt = n' m i;
        timeout = a' t i;
        deadline = b' l i;
        worker_id = worker;
      }),
    )

abbrev pub serve_heartbeat : ℕ → Registry → HeartbeatRequest → Registry × Option HeartbeatResponse
serve_heartbeat now workers req =
    let (workers', resp) = send_heartbeat workers now req in (workers', some resp)

abbrev pub serve_registration :
    ℕ → Registry → RegisterWorkerRequest → Registry × Option RegisterWorkerResponse
serve_registration now workers req =
    let (workers', resp) = register_worker workers now req in (workers', some resp)

-- A heartbeat of a worker to its master over a sound network succeeds, whether the master knew the
-- worker or not: the worker then has a full lease from now on, and nothing changes for the others.
pub heartbeat_renews :
    (workers : Registry) (source : GrpcJobSource) (now load : ℕ)
    → let (workers', ok) =
        heartbeat
          (serve_heartbeat now)
          (serve_registration now)
          workers
          source
          now
          source.worker_id
          load in
      (ok ≡ true)
      × (Option.map (λ info. info.expiry_time) (lookup source.worker_id workers')
          ≡ some (now + lease_duration))
      × ((j : String) → j ≢ source.worker_id → lookup j workers' ≡ lookup j workers)
unfolding heartbeat register register_worker send_heartbeat
heartbeat_renews workers source now load = go (lookup source.worker_id workers)
  where
    here : str_eq source.worker_id source.worker_id ≡ true
    here = (eq_iff source.worker_id source.worker_id).1 refl

    apart :
        (new : WorkerInfo) (j : String)
        → j ≢ source.worker_id
        → lookup j (insert source.worker_id new workers) ≡ lookup j workers
    apart new j d =
        lookup-insert source.worker_id j new workers ∙ ground (arith, eq_iff source.worker_id j)

    go :
        (found : Option WorkerInfo)
        → let (workers', ok) =
            heartbeat
              (λ w req. let (w', resp) = renew w now req found in (w', some resp))
              (serve_registration now)
              workers
              source
              now
              source.worker_id
              load in
          (ok ≡ true)
          × (Option.map (λ info. info.expiry_time) (lookup source.worker_id workers')
              ≡ some (now + lease_duration))
          × ((j : String) → j ≢ source.worker_id → lookup j workers' ≡ lookup j workers)
    go none = (refl, rw (lookup-insert source.worker_id source.worker_id, here) refl, apart _)
    go (some info) =
        (refl, rw (lookup-insert source.worker_id source.worker_id, here) refl, apart _)
