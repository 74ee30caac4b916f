-- ===== src/Snapshot.antt =====
-- internal/snapshot: snapshots on disk.
pub mod Manager
