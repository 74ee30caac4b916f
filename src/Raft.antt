-- ===== src/Raft.antt =====
-- internal/raft: the consensus module.
pub mod Log
pub mod Node
pub mod Election
pub mod Replication
pub mod Commands
pub mod Steps
pub mod Cluster
pub mod Transport
