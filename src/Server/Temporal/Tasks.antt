-- ===== src/Server/Temporal/Tasks.antt =====
-- poll_activity_task_queue, respond_activity_task_completed and respond_activity_task_failed
use khronos.Prelude.{
  ℕ, ◌+◌, String, Bool, Option, none, some, List, [], ◌∷◌, ◌==◌, ltb, unwrap_or, if◌then◌else◌,
}
use mathlib.Core.Option
use khronos.Prelude.Result.{ok, ok_or}
use khronos.Prelude.Exec.{Exec, pure, ◌>>=◌, ◌>>◌}
use khronos.Values.{Value, string, object, end, Uuid, Args, DateTime, as_u32, as_64, sub_u32}
use khronos.Core.Activity.{ActivityState, RetryPolicy}
use khronos.Core.Workflow.{WorkflowState, WorkflowStepInstance}
use khronos.External.{External, Now}
use khronos.Table.{find}
use khronos.Db.Error.{json}
use khronos.Db.Schema.{WorkflowRow, Db, has_run}
use khronos.Db.Workflows.{update_workflow_state}
use khronos.Db.Activities.{
  get_pending_steps, update_step_state, insert_activity_attempt, update_activity_state,
}
use khronos.Server.State.{
  Server, Status, internal, step_completed, db_write, db_read, db_try, notify, find_activity,
  find_step,
}
use khronos.Server.Worker.Handlers.{backoff_from}

pub record Payload : Type 0 where
  pub metadata : Args
  pub contents : String  -- `data`

-- the fields that the source fills, where the response has a task
pub record PollActivityTaskQueueResponse : Type 0 where
  pub task_token : String
  pub workflow_namespace : String
  pub workflow_execution : Option (String × String)
  pub activity_id : String
  pub activity_type : Option String
  pub input : Option (List Payload)
  pub heartbeat_timeout : Option ℕ
  pub schedule_to_close_timeout : Option ℕ
  pub start_to_close_timeout : Option ℕ

-- `..Default::default()`
abbrev pub empty_response : PollActivityTaskQueueResponse
empty_response = record {
  task_token = "";
  workflow_namespace = "";
  workflow_execution = none;
  activity_id = "";
  activity_type = none;
  input = none;
  heartbeat_timeout = none;
  schedule_to_close_timeout = none;
  start_to_close_timeout = none;
}

module _ (x : External) where
  abbrev pub run_row_of : WorkflowStepInstance → Db → Option WorkflowRow
  run_row_of step db = find (has_run (x.uuid_to_string step.workflow_run_id)) db.workflows

  -- `unwrap_or_default()` where the run is not found
  abbrev pub in_queue : String → Db → WorkflowStepInstance → Bool
  in_queue task_queue db step =
      unwrap_or (Option.map (λ (r : WorkflowRow). r.task_queue) (run_row_of step db)) ""
      == task_queue

  abbrev pub namespace_of : WorkflowStepInstance → Db → String
  namespace_of step db =
      unwrap_or (Option.map (λ (r : WorkflowRow). r.namespace) (run_row_of step db)) "default"

  abbrev payload_args : Value → List Payload
  payload_args (string job_id) =
      if job_id == ""
      then []
      else record {
        metadata = ("encoding", "json/plain") ∷ [];
        contents = unwrap_or (x.value_to_string (string job_id)) "null";
      }
        ∷ []
  payload_args _ = []

  abbrev pub response_of : Uuid → WorkflowStepInstance → String → PollActivityTaskQueueResponse
  response_of activity_id step workflow_namespace =
      let run_id = x.uuid_to_string step.workflow_run_id in
      record {
        task_token = x.uuid_to_string activity_id;
        workflow_namespace = workflow_namespace;
        workflow_execution = some (run_id, run_id);
        activity_id = step.activity_name;
        activity_type = some step.activity_name;
        input = some (payload_args step.args_json);
        heartbeat_timeout = some (as_64 (unwrap_or step.heartbeat_timeout_secs 30));
        schedule_to_close_timeout = some (as_64 step.timeout_secs);
        start_to_close_timeout = some (as_64 step.timeout_secs);
      }

  -- the body of the loop, for the first step of the queue
  unfoldable pub hand_out_task :
      Now → Uuid → WorkflowStepInstance → Exec Server Status PollActivityTaskQueueResponse
  hand_out_task now activity_id step = do
    let new_attempt = as_u32 (step.attempt + 1)
    db_write (internal "Failed to update step state") (
        update_step_state x (x.uuid_to_string step.id) WorkflowState.running (some new_attempt) none
          none)
    db_write (internal "Failed to insert activity") (
        insert_activity_attempt now.sql (x.uuid_to_string activity_id) (x.uuid_to_string step.id)
          new_attempt)
    db_try (
        update_workflow_state x (x.uuid_to_string step.workflow_run_id) WorkflowState.running none
          (some now.utc))
    workflow_namespace ← db_read (internal "") (λ db. ok (namespace_of step db))
    pure (response_of activity_id step workflow_namespace)

  abbrev pub hand_out_found :
      Now → Uuid → Option WorkflowStepInstance → Exec Server Status PollActivityTaskQueueResponse
  hand_out_found now activity_id none = pure empty_response
  hand_out_found now activity_id (some step) = hand_out_task now activity_id step

  unfoldable pub poll_activity_task_queue :
      Now → Uuid → Option String → Exec Server Status PollActivityTaskQueueResponse
  unfolding hand_out_task
  poll_activity_task_queue now activity_id task_queue = do
    pending_steps ← db_read (internal "Failed to get pending steps") (get_pending_steps x now.sql)
    found ←
        db_read (internal "")
          (λ db. ok (find (in_queue (unwrap_or task_queue "") db) pending_steps))
    hand_out_found now activity_id found

  -- the first payload as JSON, or as a text where it is none
  abbrev pub payload_result : Option (List String) → Value
  payload_result none = object end
  payload_result (some []) = object end
  payload_result (some (contents ∷ payloads)) =
      unwrap_or (x.value_from_str contents) (string contents)

  unfoldable pub respond_activity_task_completed :
      Now → String → Option (List String) → Exec Server Status (Unit {0})
  unfolding find_activity find_step
  respond_activity_task_completed now activity_id result = do
    let result_json = payload_result result
    db_write (internal "Failed to update activity") (
        update_activity_state x now.sql activity_id ActivityState.completed (some result_json) none)
    activity ← db_read (internal "Failed to find activity") (find_activity activity_id)
    db_write (internal "Failed to update step")
        (update_step_state x activity.step_id WorkflowState.completed none (some result_json) none)
    step ← db_read (internal "Failed to find workflow_run_id") (find_step activity.step_id)
    notify (step_completed step.workflow_run_id)

  -- the retry, or the end of the step, of which the engine is told
  unfoldable pub retry_or_notify :
      DateTime → String → RetryPolicy → ℕ → Exec Server Status (Unit {0})
  unfolding find_step
  retry_or_notify now step_id policy current_attempt =
      if ltb current_attempt policy.maximum_attempts
      then db_write (internal "Failed to schedule retry") (
          update_step_state x step_id WorkflowState.pending (some current_attempt) none
            (some (backoff_from x now policy (sub_u32 current_attempt 1))))
      else (do
        db_write (internal "Failed to mark step as failed")
            (update_step_state x step_id WorkflowState.failed (some current_attempt) none none)
        step ← db_read (internal "Failed to find workflow_run_id") (find_step step_id)
        notify (step_completed step.workflow_run_id))

  -- `failure` is the message of the failure, if there is one
  unfoldable pub respond_activity_task_failed :
      Now → String → Option String → Exec Server Status (Unit {0})
  unfolding find_activity find_step retry_or_notify
  respond_activity_task_failed now activity_id failure = do
    activity ← db_read (internal "Failed to find activity") (find_activity activity_id)
    step ← db_read (internal "Failed to get retry policy") (find_step activity.step_id)
    policy ←
        db_read (internal "Invalid retry policy JSON")
          (λ _. ok_or (x.retry_from_str step.retry_policy_json) json)
    db_write (internal "Failed to update activity") (
        update_activity_state x now.sql activity_id ActivityState.failed none
          (some (unwrap_or failure "")))
    retry_or_notify now.utc activity.step_id policy (as_u32 (as_u32 activity.attempt + 1))
