-- ===== src/Server/Worker/Handlers.antt =====
-- The four handlers.
use khronos.Prelude.{
  ℕ, ◌+◌, String, Bool, true, false, Option, none, some, List, [], ◌∷◌, ◌==◌, ltb, contains,
  unwrap_or, if◌then◌else◌,
}
use khronos.Prelude.Result.{Result, ok, ok_or}
use khronos.Prelude.Exec.{Exec, pure, lift, ◌>>=◌, ◌>>◌}
use khronos.Values.{
  Value, object, Fields, end, field, as_str, Uuid, DateTime, Args, f64_two, as_u32, sub_u32,
}
use khronos.Core.Activity.{ActivityState, RetryPolicy}
use khronos.Core.Workflow.{WorkflowState, WorkflowStepInstance}
use khronos.External.{External, Now}
use khronos.Table.{find}
use khronos.Db.Error.{json}
use khronos.Db.Workflows.{update_workflow_state}
use khronos.Db.Activities.{
  get_pending_steps, update_step_state, insert_activity_attempt, update_activity_state,
  heartbeat_update,
}
use khronos.Server.State.{
  Server, Status, internal, invalid_argument, step_completed, db_write, db_read, db_try, notify,
  find_activity, find_step,
}

pub record PollActivityRequest : Type 0 where
  pub task_queue : String
  pub activity_types : List String

-- the message `ActivityTask`
pub record TaskMessage : Type 0 where
  pub activity_id : String
  pub step_id : String
  pub workflow_run_id : String
  pub name : String
  pub args : Args
  pub retry_policy : RetryPolicy
  pub heartbeat_timeout_secs : ℕ
  pub start_to_close_timeout_secs : ℕ

pub record PollActivityResponse : Type 0 where
  pub task : Option TaskMessage
  pub has_task : Bool

abbrev pub no_task : PollActivityResponse
no_task = record { task = none; has_task = false }

abbrev entry : String → Option String → Args → Args
entry k none args = args
entry k (some s) args = (k, s) ∷ args

-- the fields of a JSON object that are texts
abbrev text_fields : Fields → Args
text_fields end = []
text_fields (field k v fields) = entry k (as_str v) (text_fields fields)

abbrev pub object_args : Value → Args
object_args (object fields) = text_fields fields
object_args _ = []

abbrev pub handles : List String → WorkflowStepInstance → Bool
handles types step = contains types step.activity_name

module _ (x : External) where
  abbrev pub task_of : Uuid → WorkflowStepInstance → TaskMessage
  task_of activity_id step = record {
    activity_id = x.uuid_to_string activity_id;
    step_id = x.uuid_to_string step.id;
    workflow_run_id = x.uuid_to_string step.workflow_run_id;
    name = step.activity_name;
    args = object_args step.args_json;
    retry_policy = step.retry_policy;
    heartbeat_timeout_secs = unwrap_or step.heartbeat_timeout_secs 30;
    start_to_close_timeout_secs = step.timeout_secs;
  }

  -- the body of the loop, for the first step that the worker can take
  unfoldable pub hand_out :
      Now → Uuid → WorkflowStepInstance → Exec Server Status PollActivityResponse
  hand_out now activity_id step = do
    let new_attempt = as_u32 (step.attempt + 1)
    db_write (internal "Failed to update step state") (
        update_step_state x (x.uuid_to_string step.id) WorkflowState.running (some new_attempt) none
          none)
    db_write (internal "Failed to insert activity") (
        insert_activity_attempt now.sql (x.uuid_to_string activity_id) (x.uuid_to_string step.id)
          new_attempt)
    db_try (
        update_workflow_state x (x.uuid_to_string step.workflow_run_id) WorkflowState.running none
          (some now.utc))
    pure (record { task = some (task_of activity_id step); has_task = true })

  abbrev pub hand_out_first :
      Now → Uuid → Option WorkflowStepInstance → Exec Server Status PollActivityResponse
  hand_out_first now activity_id none = pure no_task
  hand_out_first now activity_id (some step) = hand_out now activity_id step

  unfoldable pub poll_activity :
      Now → Uuid → PollActivityRequest → Exec Server Status PollActivityResponse
  poll_activity now activity_id req = do
    pending_steps ← db_read (internal "Failed to get pending steps") (get_pending_steps x now.sql)
    hand_out_first now activity_id (find (handles req.activity_types) pending_steps)

  abbrev pub empty_object : Value
  empty_object = object end

  unfoldable pub parse_result : String → Result Value Status
  parse_result s =
      if s == ""
      then ok empty_object
      else ok_or (x.value_from_str s) (invalid_argument "Invalid result JSON")

  unfoldable pub report_activity_result : Now → String → String → Exec Server Status Bool
  unfolding parse_result find_activity find_step
  report_activity_result now activity_id result = do
    result_json ← lift (parse_result result)
    db_write (internal "Failed to update activity") (
        update_activity_state x now.sql activity_id ActivityState.completed (some result_json) none)
    activity ← db_read (internal "Failed to find activity") (find_activity activity_id)
    db_write (internal "Failed to update step")
        (update_step_state x activity.step_id WorkflowState.completed none (some result_json) none)
    step ← db_read (internal "Failed to find step") (find_step activity.step_id)
    notify (step_completed step.workflow_run_id)
    pure true

  -- `initial_interval_secs * 2.0.powi(exponent) as i64` seconds from now
  abbrev pub backoff_from : DateTime → RetryPolicy → ℕ → DateTime
  backoff_from now policy exponent =
      x.seconds_later now
        (x.f64_as_i64 (x.f64_mul policy.initial_interval_secs (x.f64_powi f64_two exponent)))

  -- the retry, or the end of the step
  unfoldable pub retry_or_fail : DateTime → String → RetryPolicy → ℕ → Exec Server Status (Unit {0})
  retry_or_fail now step_id policy current_attempt =
      if ltb current_attempt policy.maximum_attempts
      then db_write (internal "Failed to schedule retry") (
          update_step_state x step_id WorkflowState.pending (some current_attempt) none
            (some (backoff_from now policy (sub_u32 current_attempt 1))))
      else db_write (internal "Failed to mark step as failed")
          (update_step_state x step_id WorkflowState.failed (some current_attempt) none none)

  unfoldable pub report_activity_failure : Now → String → String → Exec Server Status Bool
  unfolding find_activity find_step retry_or_fail
  report_activity_failure now activity_id error_message = do
    activity ← db_read (internal "Failed to find activity") (find_activity activity_id)
    step ← db_read (internal "Failed to get retry policy") (find_step activity.step_id)
    policy ←
        db_read (internal "Invalid retry policy JSON")
          (λ _. ok_or (x.retry_from_str step.retry_policy_json) json)
    db_write (internal "Failed to update activity")
        (update_activity_state x now.sql activity_id ActivityState.failed none (some error_message))
    retry_or_fail now.utc activity.step_id policy (as_u32 (as_u32 activity.attempt + 1))
    pure true

unfoldable pub heartbeat : Now → String → Exec Server Status Bool
heartbeat now activity_id = do
  db_write (internal "Failed to update heartbeat") (heartbeat_update now.sql activity_id)
  pure true
