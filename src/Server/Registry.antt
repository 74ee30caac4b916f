-- ===== src/Server/Registry.antt =====
-- internal/server/server.go: the registry of workers.
use raft_recovery.Prelude.{ℕ, ◌+◌, true, false, Option, none, some, List, String, lookup, insert}
use raft_recovery.Messages.{
  RegisterWorkerRequest, RegisterWorkerResponse, HeartbeatRequest, HeartbeatResponse,
}

pub record WorkerInfo : Type 0 where
  pub node_id : String
  pub address : String
  pub capacity : ℕ
  pub tags : List String
  pub last_seen : ℕ
  pub expiry_time : ℕ

abbrev pub Registry : Type 0
Registry = List (String × WorkerInfo)

-- Ten seconds, in milliseconds.
abbrev pub lease_duration : ℕ
lease_duration = 10000

unfoldable pub register_worker :
    Registry → ℕ → RegisterWorkerRequest → Registry × RegisterWorkerResponse
register_worker workers now req = (
  insert req.node_id
      (record {
        node_id = req.node_id;
        address = req.address;
        capacity = req.capacity;
        tags = req.tags;
        last_seen = now;
        expiry_time = now + lease_duration;
      })
      workers,
  record { success = true; lease_duration_ms = lease_duration },
)

-- The end of `SendHeartbeat`, with what the map has for the worker. The load is not kept.
abbrev pub renew :
    Registry → ℕ → HeartbeatRequest → Option WorkerInfo → Registry × HeartbeatResponse
renew workers now req none = (workers, record { acknowledged = false; re_register = true })
renew workers now req (some info) = (
  insert req.node_id (record info { last_seen = req.timestamp; expiry_time = now + lease_duration })
      workers,
  record { acknowledged = true; re_register = false },
)

unfoldable pub send_heartbeat : Registry → ℕ → HeartbeatRequest → Registry × HeartbeatResponse
send_heartbeat workers now req = renew workers now req (lookup req.node_id workers)
