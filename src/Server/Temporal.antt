-- ===== src/Server/Temporal.antt =====
-- The calls of Temporal's WorkflowService in crates/server/src/grpc.rs. The bytes of a payload
-- and of a task token are taken to be UTF-8, as their text; a duration is its seconds.
pub mod Runs
pub mod Tasks
pub mod Idle
pub mod Namespaces
pub mod Schedules
pub mod Outcomes
pub mod Failure
pub mod Results
pub mod Queue
pub mod Registration
pub mod CronSchedules
pub mod Silence
pub mod Update
pub mod Splicing
pub mod Log
