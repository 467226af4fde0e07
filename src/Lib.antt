-- ===== src/Lib.antt =====
-- Khronos, a workflow orchestrator over SQLite: a model of its database layer, its engine, its scheduler, the
-- calls of clients and workers, and its worker, and theorems about them.
--
-- The program (crates/) has four crates. `core` holds the data types. `db` stores runs of workflows, their
-- steps, the attempts at a step (activities) and schedules in SQLite tables. `server` answers gRPC calls: a
-- client starts a run, workers poll for tasks and report how they ended, and the engine, which listens to a
-- broadcast channel, moves a run through its states; the scheduler starts runs at the times of schedules. A
-- second set of calls has the messages of Temporal's WorkflowService. `worker` polls the server and runs the
-- handlers.
--
-- Which file models what:
--   Prelude, Prelude/*   shared names: tests on numbers and texts, lists, `Result`, and `Exec`, an action that
--                        changes a state and may fail, where what was written before an error stays written
--   Values, External     values of serde_json, uuid, chrono and f64, and what those libraries, cron and SQLite
--                        compute, as a record that the definitions take
--   Table, Table/*       SELECT, UPDATE, DELETE, INSERT, COUNT and ORDER BY over lists of rows, with their laws
--   Core/*               crates/core/src/{activity,workflow,schedule,task_queue}.rs: the data types, and
--                        the in-memory task queue with its operations
--   Db/Schema            crates/db/src/schema.rs: the rows, keys, CHECK clauses and references
--   Db/States, Db/Dates  the texts of states and dates in crates/db/src/{workflows,activities}.rs
--   Db/Workflows         crates/db/src/workflows.rs, function by function; what they do is in Workflows/Laws
--   Db/Activities        crates/db/src/activities.rs, function by function; with Activities/{Laws,Queries}
--   Db/Schedules         crates/db/src/schedules.rs, function by function, with Schedules/Laws
--   Db/Integrity         the integrity of the database, kept by every operation
--   Server/State         the shared state: the database, the events on the channel, the timers
--   Server/Worker        poll_activity, report_activity_result, report_activity_failure and heartbeat of
--                        crates/server/src/grpc.rs
--   Server/Definitions   get_workflow_definition of crates/server/src/grpc.rs
--   Server/Engine        crates/server/src/engine.rs: run, its handlers, process_single_workflow, the timers, and
--                        the sweeps check_retries and check_heartbeats
--   Server/Workflows     the calls of WorkflowService in crates/server/src/grpc.rs
--   Server/Schedules     the calls of ScheduleService in crates/server/src/grpc.rs
--   Server/Temporal      the Temporal-compatible calls in crates/server/src/grpc.rs; those that answer a default
--                        message and do nothing else are in Temporal/Idle
--   Server/Scheduler     crates/server/src/scheduler.rs: Times (when a schedule is due), Start (the run that it
--                        starts), Process (process_schedule and the overlap policies), Heap, and Run (the loop)
--   Server/Log           the statements by which the handlers change the database, and what each keeps: the
--                        database's integrity, rows that can be read, and the columns of a row that stay
--   Server/System        calls, events, schedules that fire and timers in any order
--   Server/Start         run_server and main: the state that the server starts from, and its tasks side by side
--   Server/Completion    a worker's report and the engine's answer to it
--   Worker/*             crates/worker/src/{handler,registry,executor,poller,client,worker}.rs
--   Tests/*              the theorems at concrete inputs
--
-- A table is the list of its rows in the order of their row ids; a statement is a total function of it. INTEGER
-- columns are the bit patterns of an i64, and the casts to u32 and back are written out (`as_u32`, `as_64`).
-- A handler runs to its end before the next starts: the calls hold one lock, the engine is one task, and the
-- interleavings of a call's statements with those of the engine and the scheduler are left out. Clock readings and
-- fresh UUIDs are arguments, one reading for each handler. Loops are over lists, but for the scheduler's loop over
-- its heap (Server/Scheduler/Run, fire_due), whose fuel is the number of entries: each round takes one. A
-- BinaryHeap is a list of its entries, with `pop` giving a least one.
--
-- Not modelled: SQLite's failures other than violated constraints and refused statements, logging, the
-- transport, and the lag of the broadcast channel, which loses events; the processes that a
-- handler starts (a parameter); the command lines, connections and the registration of signals of the server
-- and the worker; the texts of Display; and crates/worker/src/handlers.rs, which no module of the crate names.
pub mod Core
pub mod Db
pub mod External
pub mod Prelude
pub mod Server
pub mod Table
pub mod Tests
pub mod Values
pub mod Worker
