-- ===== src/Server.antt =====
-- internal/server: the gRPC service.
pub mod Registry
pub mod Jobs
pub mod Peers
pub mod Polling
