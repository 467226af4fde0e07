-- ===== src/Worker.antt =====
-- crates/worker/src: the handlers of activities, the executor, the poller and the worker that joins them.
pub mod Handlers
pub mod Executor
pub mod Poller
pub mod Polling
pub mod Loop
