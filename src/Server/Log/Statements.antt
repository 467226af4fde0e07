-- ===== src/Server/Log/Statements.antt =====
-- The statements by which the handlers change the database, each with what is known of its values.
use khronos.Prelude.{ℕ, String, ◌≡◌, ◌⊎◌, Option, none, some, List}
use khronos.Prelude.Result.{ok}
use khronos.Values.{Value, DateTime, Args, null, string, object, end, f64_one, f64_two}
use khronos.Core.Activity.{ActivityState, RetryPolicy}
use khronos.Core.Workflow.{WorkflowState, WorkflowInstance, WorkflowStepInstance}
use khronos.Core.Schedule.{Schedule}
use khronos.External.{External}
use khronos.Db.Schema.{ScheduleRow, Db, insert_schedule_row}
use khronos.Db.Workflows.{insert_workflow, update_workflow_state, cancel_workflow}
use khronos.Db.Activities.{
  insert_workflow_step, update_step_state, insert_activity_attempt, update_activity_state,
  heartbeat_update,
}
use khronos.Db.Schedules.{insert_schedule, update_schedule_spec, delete_schedule}
use khronos.Server.Engine.Process.{start_workflow_row}
use khronos.Server.Engine.Handlers.{reset_step}
use khronos.Server.Temporal.Runs.{input_json}

-- the results that a step gets: none, what was read from a text, a text, or the empty object
pub data Stored (x : External) : Option Value → Type 0 where
  no_result : Stored x none
  parsed : (s : String) (v : Value) → x.value_from_str s ≡ some v → Stored x (some v)
  plain : (s : String) → Stored x (some (string s))
  empty_result : Stored x (some (object end))

-- the arguments that a step starts with: the texts of a request, its payloads, or the id of a job
pub data StepArgs (x : External) : Value → Type 0 where
  no_args : StepArgs x (object end)
  merged : (args : Args) → StepArgs x (x.map_from_iter args)
  payloads : (input : Option (List String)) → StepArgs x (input_json input)
  no_job : StepArgs x null
  job : (id : String) → StepArgs x (string id)

-- the intervals of the definitions
abbrev pub IsBuiltIn : RetryPolicy → Type 0
IsBuiltIn policy =
    (policy.initial_interval_secs ≡ f64_one) ⊎ (policy.initial_interval_secs ≡ f64_two)

-- a step as the three ways to start a run build it
pub record IsFresh (x : External) (step : WorkflowStepInstance) : Type 0 where
  pub policy : IsBuiltIn step.retry_policy
  pub args : StepArgs x step.args_json
  pub is_pending : step.state ≡ WorkflowState.pending
  pub no_result_yet : step.result_json ≡ none
  pub no_retry : step.next_retry_at ≡ none

pub data Statement (x : External) (db db' : Db) : Type 0 where
  workflow_inserted :
      (wf : WorkflowInstance) → insert_workflow x wf db ≡ ok db' → Statement x db db'
  step_inserted :
      (now : String) (step : WorkflowStepInstance)
      → IsFresh x step
      → insert_workflow_step x now step db ≡ ok db'
      → Statement x db db'
  workflow_updated :
      (run_id : String) (state : WorkflowState) (v : Option Value) (at : Option DateTime)
      → update_workflow_state x run_id state v at db ≡ ok db'
      → Statement x db db'
  step_updated :
      (step_id : String) (state : WorkflowState) (attempt : Option ℕ) (v : Option Value)
      (at : Option DateTime)
      → Stored x v
      → update_step_state x step_id state attempt v at db ≡ ok db'
      → Statement x db db'
  activity_inserted :
      (now id step_id : String) (attempt : ℕ)
      → insert_activity_attempt now id step_id attempt db ≡ ok db'
      → Statement x db db'
  activity_updated :
      (now id : String) (state : ActivityState) (v : Option Value) (message : Option String)
      → update_activity_state x now id state v message db ≡ ok db'
      → Statement x db db'
  heard : (now id : String) → heartbeat_update now id db ≡ ok db' → Statement x db db'
  run_cancelled :
      (now run_id : String) → cancel_workflow now run_id db ≡ ok db' → Statement x db db'
  run_started :
      (now run_id : String) → start_workflow_row now run_id db ≡ ok db' → Statement x db db'
  step_reset : (step_id : String) → reset_step x step_id db ≡ ok db' → Statement x db db'
  schedule_inserted :
      (now : String) (schedule : Schedule)
      → insert_schedule x now schedule db ≡ ok db'
      → Statement x db db'
  schedule_row_inserted : (r : ScheduleRow) → insert_schedule_row r db ≡ ok db' → Statement x db db'
  schedule_updated :
      (now id namespace : String) (schedule : Schedule)
      → update_schedule_spec x now id namespace schedule db ≡ ok db'
      → Statement x db db'
  schedule_deleted :
      (id namespace : String) → (delete_schedule id namespace db).1 ≡ db' → Statement x db db'
