-- ===== src/Server/Temporal/Runs.antt =====
-- start_workflow_execution
use khronos.Prelude.{ℕ, ◌+◌, String, Option, none, some, List, [], ◌∷◌, unwrap_or}
use mathlib.Core.Option
use khronos.Prelude.Exec.{Exec, pure, ◌>>◌}
use khronos.Values.{Value, Items, no_items, item, string, array, object, end, Uuid, as_64}
use khronos.Core.Workflow.{WorkflowState, WorkflowInstance, WorkflowStepInstance, ActivityStep}
use khronos.External.{External, Now}
use khronos.Db.Workflows.{insert_workflow}
use khronos.Db.Activities.{insert_workflow_step}
use khronos.Server.State.{Server, Status, internal, db_write}
use khronos.Server.Definitions.{Chars, get_workflow_definition}
use khronos.Server.Workflows.{or_default}

pub record StartWorkflowExecutionRequest : Type 0 where
  pub namespace : String
  pub workflow_id : String
  pub workflow_type : Option String
  pub task_queue : Option String
  pub input : Option (List String)
  pub workflow_execution_timeout : Option ℕ
  pub workflow_run_timeout : Option ℕ
  pub workflow_task_timeout : Option ℕ

abbrev items_of : List String → Items
items_of [] = no_items
items_of (s ∷ payloads) = item (string s) (items_of payloads)

abbrev pub input_json : Option (List String) → Value
input_json none = object end
input_json (some []) = object end
input_json (some payloads) = array (items_of payloads)

abbrev pub execution_of : Uuid → StartWorkflowExecutionRequest → WorkflowInstance
execution_of run_id req = record {
  run_id = run_id;
  workflow_id = req.workflow_id;
  name = unwrap_or req.workflow_type "";
  task_queue = unwrap_or req.task_queue "default";
  state = WorkflowState.pending;
  args_json = input_json req.input;
  result_json = none;
  timeouts = record {
    execution_timeout_secs = Option.map as_64 req.workflow_execution_timeout;
    run_timeout_secs = Option.map as_64 req.workflow_run_timeout;
    task_timeout_secs = Option.map as_64 req.workflow_task_timeout;
  };
  started_at = none;
  completed_at = none;
  namespace = or_default req.namespace;
}

-- every step gets the run's arguments
abbrev pub execution_step : Uuid → Uuid → ℕ → Value → ActivityStep → WorkflowStepInstance
execution_step id run_id index args_json step_def = record {
  id = id;
  workflow_run_id = run_id;
  step_index = index;
  activity_name = step_def.activity_name;
  args_json = args_json;
  retry_policy = step_def.retry_policy;
  timeout_secs = step_def.timeout_secs;
  heartbeat_timeout_secs = step_def.heartbeat_timeout_secs;
  state = WorkflowState.pending;
  attempt = 0;
  result_json = none;
  next_retry_at = none;
}

module _ (x : External) where
  -- the loop over the definition's steps
  unfoldable pub insert_execution_steps :
      Now → (ℕ → Uuid) → Uuid → Value → ℕ → List ActivityStep → Exec Server Status (Unit {0})
  insert_execution_steps now ids run_id args_json index [] = pure tt
  insert_execution_steps now ids run_id args_json index (step_def ∷ steps) = do
    db_write (internal "Failed to create step") (
        insert_workflow_step x now.sql (execution_step (ids index) run_id index args_json step_def))
    insert_execution_steps now ids run_id args_json (index + 1) steps

  -- the engine is not told
  unfoldable pub start_workflow_execution :
      Chars → Now → Uuid → (ℕ → Uuid) → StartWorkflowExecutionRequest → Exec Server Status String
  unfolding insert_execution_steps
  start_workflow_execution chars now run_id ids req = do
    db_write (internal "Failed to create workflow") (insert_workflow x (execution_of run_id req))
    insert_execution_steps now ids run_id (input_json req.input) 0
        (get_workflow_definition chars (unwrap_or req.workflow_type ""))
    pure (x.uuid_to_string run_id)
