-- ===== src/Server.antt =====
-- crates/server/src: the gRPC services and the engine, over one shared state.
pub mod State
pub mod Log
pub mod Definitions
pub mod Worker
pub mod Engine
pub mod Workflows
pub mod Schedules
pub mod Temporal
pub mod Scheduler
pub mod System
pub mod Start
pub mod Completion
