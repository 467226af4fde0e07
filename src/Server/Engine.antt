-- ===== src/Server/Engine.antt =====
-- Engine of crates/server/src/engine.rs. A handler's clock reading is an argument; a handler runs
-- without another task's statements in between.
pub mod Process
pub mod Log
pub mod Timers
pub mod Handlers
pub mod Outcome
pub mod Idempotence
pub mod Unarmed
pub mod TimersOnly
pub mod Timeouts
pub mod Sweeps
pub mod Swept
