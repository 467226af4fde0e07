-- ===== src/Server/Log/Operations.antt =====
-- The operations of crates/db and of the engine as statements.
use khronos.Prelude.{ℕ, String, Option}
use khronos.Values.{Value, DateTime}
use khronos.Core.Activity.{ActivityState}
use khronos.Core.Workflow.{WorkflowState, WorkflowInstance, WorkflowStepInstance}
use khronos.Core.Schedule.{Schedule}
use khronos.External.{External}
use khronos.Db.Schema.{ScheduleRow, insert_schedule_row}
use khronos.Db.Workflows.{insert_workflow, update_workflow_state, cancel_workflow}
use khronos.Db.Activities.{
  insert_workflow_step, update_step_state, insert_activity_attempt, update_activity_state,
  heartbeat_update,
}
use khronos.Db.Schedules.{insert_schedule, update_schedule_spec}
use khronos.Server.Engine.Process.{start_workflow_row}
use khronos.Server.Engine.Handlers.{reset_step}
use khronos.Server.Log.{IsStatement, IsStatement-one}
use khronos.Server.Log.Statements.{
  Stored, IsFresh, workflow_inserted, step_inserted, workflow_updated, step_updated,
  activity_inserted, activity_updated, heard, run_cancelled, run_started, step_reset,
  schedule_inserted, schedule_row_inserted, schedule_updated,
}

module _ (x : External) where
  pub insert_workflow-IsStatement : (wf : WorkflowInstance) → IsStatement x (insert_workflow x wf)
  insert_workflow-IsStatement wf = IsStatement-one _ (λ db db' h. workflow_inserted wf h)

  pub insert_workflow_step-IsStatement :
      (now : String) (step : WorkflowStepInstance)
      → IsFresh x step
      → IsStatement x (insert_workflow_step x now step)
  insert_workflow_step-IsStatement now step fresh =
      IsStatement-one _ (λ db db' h. step_inserted now step fresh h)

  pub update_workflow_state-IsStatement :
      (run_id : String) (state : WorkflowState) (v : Option Value) (at : Option DateTime)
      → IsStatement x (update_workflow_state x run_id state v at)
  update_workflow_state-IsStatement run_id state v at =
      IsStatement-one _ (λ db db' h. workflow_updated run_id state v at h)

  pub update_step_state-IsStatement :
      (step_id : String) (state : WorkflowState) (attempt : Option ℕ) (v : Option Value)
      (at : Option DateTime)
      → Stored x v
      → IsStatement x (update_step_state x step_id state attempt v at)
  update_step_state-IsStatement step_id state attempt v at stored =
      IsStatement-one _ (λ db db' h. step_updated step_id state attempt v at stored h)

  pub insert_activity_attempt-IsStatement :
      (now id step_id : String) (attempt : ℕ)
      → IsStatement x (insert_activity_attempt now id step_id attempt)
  insert_activity_attempt-IsStatement now id step_id attempt =
      IsStatement-one _ (λ db db' h. activity_inserted now id step_id attempt h)

  pub update_activity_state-IsStatement :
      (now id : String) (state : ActivityState) (v : Option Value) (message : Option String)
      → IsStatement x (update_activity_state x now id state v message)
  update_activity_state-IsStatement now id state v message =
      IsStatement-one _ (λ db db' h. activity_updated now id state v message h)

  pub heartbeat_update-IsStatement : (now id : String) → IsStatement x (heartbeat_update now id)
  heartbeat_update-IsStatement now id = IsStatement-one _ (λ db db' h. heard now id h)

  pub cancel_workflow-IsStatement :
      (now run_id : String) → IsStatement x (cancel_workflow now run_id)
  cancel_workflow-IsStatement now run_id =
      IsStatement-one _ (λ db db' h. run_cancelled now run_id h)

  pub start_workflow_row-IsStatement :
      (now run_id : String) → IsStatement x (start_workflow_row now run_id)
  start_workflow_row-IsStatement now run_id =
      IsStatement-one _ (λ db db' h. run_started now run_id h)

  pub reset_step-IsStatement : (step_id : String) → IsStatement x (reset_step x step_id)
  reset_step-IsStatement step_id = IsStatement-one _ (λ db db' h. step_reset step_id h)

  pub insert_schedule-IsStatement :
      (now : String) (schedule : Schedule) → IsStatement x (insert_schedule x now schedule)
  insert_schedule-IsStatement now schedule =
      IsStatement-one _ (λ db db' h. schedule_inserted now schedule h)

  pub insert_schedule_row-IsStatement : (r : ScheduleRow) → IsStatement x (insert_schedule_row r)
  insert_schedule_row-IsStatement r = IsStatement-one _ (λ db db' h. schedule_row_inserted r h)

  pub update_schedule_spec-IsStatement :
      (now id namespace : String) (schedule : Schedule)
      → IsStatement x (update_schedule_spec x now id namespace schedule)
  update_schedule_spec-IsStatement now id namespace schedule =
      IsStatement-one _ (λ db db' h. schedule_updated now id namespace schedule h)
