-- ===== src/Core.antt =====
-- crates/core/src: the types that the other crates share.
pub mod Activity
pub mod Schedule
pub mod Workflow
pub mod TaskQueue
