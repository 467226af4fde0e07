-- ===== src/Server/Engine/Log.antt =====
-- The statements of the engine's handlers.
use khronos.Prelude.{String, ℕ, Option, none, some, List, [], ◌∷◌}
use khronos.Values.{DateTime}
use khronos.Core.Activity.{RetryPolicy}
use khronos.Prelude.{ltb, eqb}
use khronos.Core.Workflow.{WorkflowState}
use khronos.Table.{count}
use khronos.Server.Engine.Process.{of_run, of_run_in}
use khronos.External.{External, Now}
use khronos.Db.Schema.{StepRow, ActivityRow, WorkflowRow}
use khronos.Server.Log.Operations.{
  update_workflow_state-IsStatement, update_step_state-IsStatement,
  update_activity_state-IsStatement, start_workflow_row-IsStatement, reset_step-IsStatement,
}
use khronos.Server.State.{
  EngineEvent, workflow_created, step_completed, schedule_change, retry_due, heartbeat_timeout,
}
use khronos.Server.Log.Statements.{no_result}
use khronos.Server.Log.{
  IsStatement, IsStatement-if, IsStatement-ok, IsLogged, log_rules, IsLogged-pure, IsLogged-bind,
  IsLogged-spawn_timer,
}
use khronos.Server.Engine.Process.{finish_workflow, advance, next_step, process_single_workflow}
use khronos.Server.Engine.Timers.{
  schedule_timers_for_workflow, schedule_retry_timers_for_workflow,
  schedule_heartbeat_timers_for_workflow, Watched, retry_timer, heartbeat_timer, retry_timers,
  heartbeat_timers,
}
use khronos.Server.Engine.Handlers.{
  handle_workflow_created, handle_step_completed, resume_step, handle_retry_due, schedule_retry,
  give_up, time_out, handle_heartbeat_timeout, process_all, process_workflows, handle,
}

module _ (x : External) where
  finish_workflow-IsStatement :
      (now : Now) (run_id : String) → IsStatement x (finish_workflow x now run_id)
  unfolding finish_workflow
  finish_workflow-IsStatement now run_id =
      IsStatement-if (λ db. ltb 0 (count (of_run run_id) db.workflow_steps)) _ _
        (IsStatement-if (λ db. ltb 0 (count (of_run_in run_id "failed") db.workflow_steps)) _ _
          (update_workflow_state-IsStatement x run_id WorkflowState.failed none (some now.utc))
          (IsStatement-if
            (λ db.
              eqb (count (of_run_in run_id "completed") db.workflow_steps)
                (count (of_run run_id) db.workflow_steps))
            _ _
            (update_workflow_state-IsStatement x run_id WorkflowState.completed none (some now.utc))
            IsStatement-ok))
        IsStatement-ok

  advance_logged :
      (now : Now) (run_id : String) (step : Option StepRow)
      → IsStatement x (advance x now run_id step)
  advance_logged now run_id none = finish_workflow-IsStatement now run_id
  advance_logged now run_id (some step) = IsStatement-ok

  advance-IsStatement :
      (now : Now) (run_id : String)
      → IsStatement x (λ db. advance x now run_id (next_step run_id db) db)
  advance-IsStatement now run_id = record {
    at = λ db {db' = d} h. (advance_logged now run_id (next_step run_id db)).at db {db' = d} h;
  }

  process_single_workflow-IsLogged :
      (now : Now) (run_id : String) → IsLogged x (process_single_workflow x now run_id)
  unfolding process_single_workflow
  process_single_workflow-IsLogged now run_id =
      search (log_rules, start_workflow_row-IsStatement, advance-IsStatement)

  retry_timer-IsLogged :
      (now : Now) (r : StepRow) (at : Option DateTime) → IsLogged x (retry_timer x now r at)
  retry_timer-IsLogged now r none = IsLogged-pure _
  retry_timer-IsLogged now r (some at) = IsLogged-spawn_timer now.utc at _

  retry_timers-IsLogged : (now : Now) (rows : List StepRow) → IsLogged x (retry_timers x now rows)
  unfolding retry_timers
  retry_timers-IsLogged now [] = IsLogged-pure _
  retry_timers-IsLogged now (r ∷ rows) =
      IsLogged-bind (retry_timer x now r _) _ (retry_timer-IsLogged now r _)
        (λ _. retry_timers-IsLogged now rows)

  heartbeat_timer-IsLogged :
      (now : Now) (id : String) (timeout : Option ℕ) (at : Option DateTime)
      → IsLogged x (heartbeat_timer x now id timeout at)
  heartbeat_timer-IsLogged now id none at = IsLogged-pure _
  heartbeat_timer-IsLogged now id (some timeout) none = IsLogged-pure _
  heartbeat_timer-IsLogged now id (some timeout) (some at) = IsLogged-spawn_timer now.utc _ _

  heartbeat_timers-IsLogged :
      (now : Now) (rows : List Watched) → IsLogged x (heartbeat_timers x now rows)
  unfolding heartbeat_timers
  heartbeat_timers-IsLogged now [] = IsLogged-pure _
  heartbeat_timers-IsLogged now (a ∷ rows) =
      IsLogged-bind (heartbeat_timer x now a.id _ _) _ (heartbeat_timer-IsLogged now a.id _ _)
        (λ _. heartbeat_timers-IsLogged now rows)

  schedule_timers_for_workflow-IsLogged :
      (now : Now) (run_id : String) → IsLogged x (schedule_timers_for_workflow x now run_id)
  unfolding schedule_timers_for_workflow schedule_retry_timers_for_workflow
      schedule_heartbeat_timers_for_workflow
  schedule_timers_for_workflow-IsLogged now run_id =
      search (log_rules, retry_timers-IsLogged, heartbeat_timers-IsLogged)

ruleset process = (process_single_workflow-IsLogged, schedule_timers_for_workflow-IsLogged)

ruleset writes = (
  update_workflow_state-IsStatement, update_step_state-IsStatement,
  update_activity_state-IsStatement, reset_step-IsStatement, no_result,
)

module _ (x : External) where
  handle_workflow_created-IsLogged :
      (now : Now) (run_id : String) → IsLogged x (handle_workflow_created x now run_id)
  unfolding handle_workflow_created
  handle_workflow_created-IsLogged now run_id = search (log_rules, process)

  handle_step_completed-IsLogged :
      (now : Now) (run_id : String) → IsLogged x (handle_step_completed x now run_id)
  unfolding handle_step_completed
  handle_step_completed-IsLogged now run_id = search (log_rules, process)

  resume_step-IsLogged :
      (now : Now) (step_id run_id : String) → IsLogged x (resume_step x now step_id run_id)
  unfolding resume_step
  resume_step-IsLogged now step_id run_id = search (log_rules, process, writes)

  handle_retry_due-IsLogged :
      (now : Now) (step_id : String) → IsLogged x (handle_retry_due x now step_id)
  unfolding handle_retry_due
  handle_retry_due-IsLogged now step_id = search (log_rules, resume_step-IsLogged)

  schedule_retry-IsLogged :
      (now : Now) (step_id : String) (policy : RetryPolicy) (attempt : ℕ)
      → IsLogged x (schedule_retry x now step_id policy attempt)
  unfolding schedule_retry
  schedule_retry-IsLogged now step_id policy attempt = search (log_rules, writes)

  give_up-IsLogged :
      (now : Now) (step_id : String) (attempt : ℕ) → IsLogged x (give_up x now step_id attempt)
  unfolding give_up
  give_up-IsLogged now step_id attempt = search (log_rules, process, writes)

  time_out-IsLogged : (now : Now) (activity : ActivityRow) → IsLogged x (time_out x now activity)
  unfolding time_out
  time_out-IsLogged now activity =
      search (log_rules, writes, schedule_retry-IsLogged, give_up-IsLogged)

  handle_heartbeat_timeout-IsLogged :
      (now : Now) (id : String) → IsLogged x (handle_heartbeat_timeout x now id)
  unfolding handle_heartbeat_timeout
  handle_heartbeat_timeout-IsLogged now id = search (log_rules, time_out-IsLogged)

  process_all-IsLogged : (now : Now) (rows : List WorkflowRow) → IsLogged x (process_all x now rows)
  unfolding process_all
  process_all-IsLogged now [] = IsLogged-pure _
  process_all-IsLogged now (r ∷ rows) =
      IsLogged-bind (process_single_workflow x now r.run_id) _
        (process_single_workflow-IsLogged x now r.run_id)
        λ _.
          IsLogged-bind (schedule_timers_for_workflow x now r.run_id) _
            (schedule_timers_for_workflow-IsLogged x now r.run_id)
            (λ _. process_all-IsLogged now rows)

  process_workflows-IsLogged : (now : Now) → IsLogged x (process_workflows x now)
  unfolding process_workflows
  process_workflows-IsLogged now = search (log_rules, process_all-IsLogged)

  pub handle-IsLogged : (now : Now) (event : EngineEvent) → IsLogged x (handle x now event)
  unfolding handle
  handle-IsLogged now (workflow_created run_id) = handle_workflow_created-IsLogged now run_id
  handle-IsLogged now (step_completed run_id) = handle_step_completed-IsLogged now run_id
  handle-IsLogged now schedule_change = process_workflows-IsLogged now
  handle-IsLogged now (retry_due step_id) = handle_retry_due-IsLogged now step_id
  handle-IsLogged now (heartbeat_timeout id) = handle_heartbeat_timeout-IsLogged now id
