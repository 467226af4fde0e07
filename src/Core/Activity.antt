-- ===== src/Core/Activity.antt =====
-- crates/core/src/activity.rs
use khronos.Prelude.{ℕ, String}
use khronos.Values.{Value, Uuid, F64, f64_zero, Args}

pub data ActivityState : Type 0 where
  pending running completed failed retried : ActivityState

pub record RetryPolicy : Type 0 where
  pub maximum_attempts : ℕ  -- u32
  pub initial_interval_secs : F64

-- `Default` is derived: zero in each field
abbrev pub default_retry_policy : RetryPolicy
default_retry_policy = record { maximum_attempts = 0; initial_interval_secs = f64_zero }

pub data ActivityResult : Type 0 where
  success : Value → ActivityResult
  failure : String → ActivityResult

pub record ActivityTask : Type 0 where
  pub activity_id : Uuid
  pub step_id : Uuid
  pub workflow_run_id : Uuid
  pub name : String
  pub args : Args
  pub retry_policy : RetryPolicy
  pub heartbeat_timeout_secs : ℕ  -- u64
  pub start_to_close_timeout_secs : ℕ  -- u64
