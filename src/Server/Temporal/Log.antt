-- ===== src/Server/Temporal/Log.antt =====
-- The statements of the calls, also of those that fail halfway.
use khronos.Prelude.{ℕ, ◌+◌, String, Option, none, some, List, [], ◌∷◌, All, refl}
use khronos.Values.{Value, Uuid, DateTime}
use khronos.Core.Activity.{RetryPolicy}
use khronos.Core.Workflow.{ActivityStep, WorkflowStepInstance}
use khronos.External.{External, Now}
use khronos.Server.Log.Operations.{
  insert_schedule_row-IsStatement, insert_workflow-IsStatement, insert_workflow_step-IsStatement,
  update_workflow_state-IsStatement, update_step_state-IsStatement,
  insert_activity_attempt-IsStatement, update_activity_state-IsStatement,
}
use khronos.Prelude.Result.{ok-injective}
use khronos.Server.State.{internal}
use khronos.Server.Workflows.{or_default}
use khronos.Server.Temporal.Schedules.{ScheduleRequest, create_schedule, delete_schedule_request}
use khronos.Server.Log.Statements.{StepArgs, payloads, no_result, schedule_deleted}
use khronos.Server.Log.Steps.{HasBuiltIn, get_workflow_definition-HasBuiltIn, payload_result-Stored}
use khronos.Server.Log.{
  ran, untouched, IsLogged, log_rules, IsLogged-pure, IsLogged-bind, IsLogged-db_write,
}
use khronos.Server.Definitions.{Chars}
use khronos.Server.Temporal.Runs.{
  StartWorkflowExecutionRequest, execution_step, insert_execution_steps, start_workflow_execution,
}
use khronos.Server.Temporal.Tasks.{
  hand_out_task, hand_out_found, poll_activity_task_queue, respond_activity_task_completed,
  retry_or_notify, respond_activity_task_failed,
}

ruleset writes = (
  update_workflow_state-IsStatement, update_step_state-IsStatement,
  insert_activity_attempt-IsStatement, update_activity_state-IsStatement, no_result,
  payload_result-Stored,
)

module _ (x : External) where
  insert_execution_steps-IsLogged :
      (now : Now) (ids : ℕ → Uuid) (run_id : Uuid) (args : Value) (index : ℕ)
      (steps : List ActivityStep)
      → StepArgs x args
      → All HasBuiltIn steps
      → IsLogged x (insert_execution_steps x now ids run_id args index steps)
  unfolding insert_execution_steps
  insert_execution_steps-IsLogged now ids run_id args index [] from built = IsLogged-pure _
  insert_execution_steps-IsLogged now ids run_id args index (step_def ∷ steps) from built =
      IsLogged-bind _ _
        (IsLogged-db_write _ _ (
          insert_workflow_step-IsStatement x now.sql
            (execution_step (ids index) run_id index args step_def)
            (record {
              policy = built.0;
              args = from;
              is_pending = refl;
              no_result_yet = refl;
              no_retry = refl;
            })))
        (λ _. insert_execution_steps-IsLogged now ids run_id args (index + 1) steps from built.1)

  pub start_workflow_execution-IsLogged :
      (chars : Chars) (now : Now) (run_id : Uuid) (ids : ℕ → Uuid)
      (req : StartWorkflowExecutionRequest)
      → IsLogged x (start_workflow_execution x chars now run_id ids req)
  unfolding start_workflow_execution
  start_workflow_execution-IsLogged chars now run_id ids req = search (
    log_rules, insert_execution_steps-IsLogged, insert_workflow-IsStatement, payloads,
    get_workflow_definition-HasBuiltIn,
  )

  hand_out_task-IsLogged :
      (now : Now) (id : Uuid) (step : WorkflowStepInstance)
      → IsLogged x (hand_out_task x now id step)
  unfolding hand_out_task
  hand_out_task-IsLogged now id step = search (log_rules, writes) depth 20

  hand_out_found-IsLogged :
      (now : Now) (id : Uuid) (found : Option WorkflowStepInstance)
      → IsLogged x (hand_out_found x now id found)
  hand_out_found-IsLogged now id none = IsLogged-pure _
  hand_out_found-IsLogged now id (some step) = hand_out_task-IsLogged now id step

  pub poll_activity_task_queue-IsLogged :
      (now : Now) (id : Uuid) (queue : Option String)
      → IsLogged x (poll_activity_task_queue x now id queue)
  unfolding poll_activity_task_queue
  poll_activity_task_queue-IsLogged now id queue = search (log_rules, hand_out_found-IsLogged)

  pub respond_activity_task_completed-IsLogged :
      (now : Now) (id : String) (result : Option (List String))
      → IsLogged x (respond_activity_task_completed x now id result)
  unfolding respond_activity_task_completed
  respond_activity_task_completed-IsLogged now id result = search (log_rules, writes) depth 20

  retry_or_notify-IsLogged :
      (now : DateTime) (id : String) (policy : RetryPolicy) (attempt : ℕ)
      → IsLogged x (retry_or_notify x now id policy attempt)
  unfolding retry_or_notify
  retry_or_notify-IsLogged now id policy attempt = search (log_rules, writes) depth 20

  pub respond_activity_task_failed-IsLogged :
      (now : Now) (id : String) (failure : Option String)
      → IsLogged x (respond_activity_task_failed x now id failure)
  unfolding respond_activity_task_failed
  respond_activity_task_failed-IsLogged now id failure =
      search (log_rules, writes, retry_or_notify-IsLogged) depth 20

  pub create_schedule-IsLogged :
      (now : Now) (req : ScheduleRequest) → IsLogged x (create_schedule now req)
  unfolding create_schedule
  create_schedule-IsLogged now req = search (log_rules, insert_schedule_row-IsStatement) depth 20

  pub delete_schedule_request-IsLogged :
      (id namespace : String) → IsLogged x (delete_schedule_request id namespace)
  unfolding delete_schedule_request
  delete_schedule_request-IsLogged id namespace =
      IsLogged-db_write (internal "Failed to delete schedule") _ (record {
        at = λ db {db' = d} h.
            ran db d untouched (schedule_deleted id (or_default namespace) (ok-injective h));
      })
