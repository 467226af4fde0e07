-- ===== src/Core/Workflow.antt =====
-- crates/core/src/workflow.rs
use khronos.Prelude.{ℕ, String, List, Option}
use khronos.Values.{Value, Uuid, DateTime, Args}
use khronos.Core.Activity.{RetryPolicy}
use khronos.Core.Schedule.{Timeouts}

pub data WorkflowState : Type 0 where
  pending running completed failed cancelled : WorkflowState

pub record ActivityStep : Type 0 where
  pub activity_name : String
  pub args_template : Args
  pub retry_policy : RetryPolicy
  pub timeout_secs : ℕ  -- u64
  pub heartbeat_timeout_secs : Option ℕ  -- u64

pub record WorkflowDefinition : Type 0 where
  pub name : String
  pub steps : List ActivityStep

pub record WorkflowInstance : Type 0 where
  pub run_id : Uuid
  pub workflow_id : String
  pub name : String
  pub task_queue : String
  pub state : WorkflowState
  pub args_json : Value
  pub result_json : Option Value
  pub timeouts : Timeouts
  pub started_at : Option DateTime
  pub completed_at : Option DateTime
  pub namespace : String

pub record WorkflowStepInstance : Type 0 where
  pub id : Uuid
  pub workflow_run_id : Uuid
  pub step_index : ℕ  -- usize
  pub activity_name : String
  pub args_json : Value
  pub retry_policy : RetryPolicy
  pub timeout_secs : ℕ  -- u64
  pub heartbeat_timeout_secs : Option ℕ  -- u64
  pub state : WorkflowState
  pub attempt : ℕ  -- u32
  pub result_json : Option Value
  pub next_retry_at : Option DateTime
