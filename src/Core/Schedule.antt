-- ===== src/Core/Schedule.antt =====
-- crates/core/src/schedule.rs. A `Duration` is its whole seconds: the program builds no other.
use khronos.Prelude.{ℕ, String, List, Option, none}
use khronos.Values.{DateTime, Args}

pub data ScheduleSpec : Type 0 where
  cron : List String → ScheduleSpec
  interval : ℕ → ScheduleSpec

pub data OverlapPolicy : Type 0 where
  skip : OverlapPolicy
  buffer : ℕ → OverlapPolicy
  terminate_existing : OverlapPolicy

pub record Timeouts : Type 0 where
  pub execution_timeout_secs : Option ℕ  -- u64
  pub run_timeout_secs : Option ℕ  -- u64
  pub task_timeout_secs : Option ℕ  -- u64

-- `Default` is derived
abbrev pub default_timeouts : Timeouts
default_timeouts = record {
  execution_timeout_secs = none;
  run_timeout_secs = none;
  task_timeout_secs = none;
}

pub record WorkflowAction : Type 0 where
  pub workflow_name : String
  pub args : Args
  pub task_queue : String
  pub id : String
  pub timeouts : Timeouts

pub record Schedule : Type 0 where
  pub schedule_id : String
  pub namespace : String
  pub spec : ScheduleSpec
  pub action : WorkflowAction
  pub policy : OverlapPolicy
  pub created_at : DateTime
  pub updated_at : DateTime
