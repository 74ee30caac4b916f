-- ===== src/Worker.antt =====
-- internal/worker: the worker pool.
pub mod Pool
pub mod Source
