-- ===== src/Server/Scheduler.antt =====
-- crates/server/src/scheduler.rs
pub mod Times
pub mod Start
pub mod Process
pub mod Heap
pub mod Run
pub mod Due
pub mod Once
pub mod Sleep
pub mod Missed
pub mod Intervals
pub mod Termination
pub mod Overlap
pub mod Entries
pub mod Log
