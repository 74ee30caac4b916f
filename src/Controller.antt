-- ===== src/Controller.antt =====
-- internal/controller: the coordinator.
pub mod Core
pub mod Dispatch
pub mod Recover
pub mod History
pub mod Saving
pub mod Keeps
pub mod Dispatchers
pub mod Starting
pub mod Commands
