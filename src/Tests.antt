-- ===== src/Tests.antt =====
-- The theorems at concrete inputs.
pub mod Libraries
pub mod World
pub mod Rounds
pub mod Storage
pub mod Calls
pub mod Systems
pub mod Schedules
pub mod Temporal
pub mod Worker
