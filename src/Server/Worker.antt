-- ===== src/Server/Worker.antt =====
-- WorkerService of crates/server/src/grpc.rs. A message of proto/khronos.proto is its fields; a fresh
-- `Uuid::new_v4()` and the clock reading of a handler are arguments.
pub mod Handlers
pub mod Outcomes
pub mod Polling
pub mod Attempts
pub mod Executions
pub mod Resurrection
pub mod Success
pub mod Oldest
pub mod Log
