-- ===== src/Db.antt =====
-- crates/db/src: the persistence layer over the tables of Db/Schema.antt.
pub mod Error
pub mod Schema
pub mod States
pub mod Dates
pub mod Workflows
pub mod Activities
pub mod Schedules
pub mod Integrity
