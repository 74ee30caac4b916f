-- ===== src/Wal.antt =====
-- internal/storage/wal: the write-ahead log.
pub mod Event
pub mod Writer
pub mod Split
