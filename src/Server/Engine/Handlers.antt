-- ===== src/Server/Engine/Handlers.antt =====
-- The handlers of the engine's events, and its loop over the events that it received.
use khronos.Prelude.{
  ℕ, String, Option, none, some, List, [], ◌∷◌, ◌==◌, ltb, unwrap_or, ◌-◌, if◌then◌else◌,
}
use khronos.Prelude.Result.{Result, ok}
use khronos.Prelude.Exec.{Exec, pure, ◌>>=◌, ◌>>◌}
use khronos.Core.Activity.{ActivityState, RetryPolicy, default_retry_policy}
use khronos.Core.Workflow.{WorkflowState}
use khronos.External.{External, Now}
use khronos.Table.{select, find, update}
use khronos.Table.Sorting.{order_by}
use khronos.Db.Error.{DbError}
use khronos.Db.Schema.{WorkflowRow, StepRow, ActivityRow, Db, has_step}
use khronos.Db.Workflows.{is_active, started_desc}
use khronos.Db.Activities.{update_activity_state, update_step_state}
use khronos.Server.State.{
  Server, EngineEvent, workflow_created, step_completed, schedule_change, retry_due,
  heartbeat_timeout, db_write, db_read, spawn_timer, find_activity, find_step,
}
use khronos.Server.Worker.Handlers.{backoff_from}
use khronos.Server.Engine.Process.{process_single_workflow}
use khronos.Server.Engine.Timers.{schedule_timers_for_workflow}

-- `UPDATE workflow_steps SET state = 'pending', next_retry_at = NULL`
abbrev pub reset_row : StepRow → StepRow
reset_row r = record r { state = "pending"; next_retry_at = none }

-- rusqlite reads a u32 only in its range; `unwrap_or_default` makes any other 0
abbrev pub from_u32 : ℕ → ℕ
from_u32 n = if ltb n 0x100000000 then n else 0

abbrev pub retry_policy_json : Option StepRow → String
retry_policy_json none = ""
retry_policy_json (some r) = r.retry_policy_json

module _ (x : External) where
  unfoldable pub handle_workflow_created : Now → String → Exec Server DbError (Unit {0})
  handle_workflow_created now run_id = do
    process_single_workflow x now run_id
    schedule_timers_for_workflow x now run_id

  unfoldable pub handle_step_completed : Now → String → Exec Server DbError (Unit {0})
  handle_step_completed now run_id = do
    process_single_workflow x now run_id
    schedule_timers_for_workflow x now run_id

  unfoldable pub reset_step : String → Db → Result Db DbError
  reset_step step_id db =
      ok (record db { workflow_steps = update (has_step step_id) reset_row db.workflow_steps })

  -- the step is retried now
  unfoldable pub resume_step : Now → String → String → Exec Server DbError (Unit {0})
  unfolding reset_step
  resume_step now step_id run_id = do
    db_write (λ e. e) (reset_step step_id)
    process_single_workflow x now run_id
    schedule_timers_for_workflow x now run_id

  unfoldable pub handle_retry_due : Now → String → Exec Server DbError (Unit {0})
  unfolding resume_step find_step
  handle_retry_due now step_id = do
    step ← db_read (λ e. e) (find_step step_id)
    if step.state == "retried" then resume_step now step_id step.workflow_run_id else pure tt

  -- the two branches of handle_heartbeat_timeout, at the attempt that timed out
  unfoldable pub schedule_retry : Now → String → RetryPolicy → ℕ → Exec Server DbError (Unit {0})
  schedule_retry now step_id policy attempt = do
    let at = backoff_from x now.utc policy (attempt - 1)
    db_write (λ e. e)
        (update_step_state x step_id WorkflowState.pending (some attempt) none (some at))
    spawn_timer now.utc at (retry_due step_id)

  unfoldable pub give_up : Now → String → ℕ → Exec Server DbError (Unit {0})
  unfolding find_step
  give_up now step_id attempt = do
    db_write (λ e. e) (update_step_state x step_id WorkflowState.failed (some attempt) none none)
    step ← db_read (λ e. e) (find_step step_id)
    process_single_workflow x now step.workflow_run_id

  -- the rest of handle_heartbeat_timeout, for an activity that is still running
  unfoldable pub time_out : Now → ActivityRow → Exec Server DbError (Unit {0})
  unfolding schedule_retry give_up
  time_out now activity = do
    policy ←
        db_read (λ e. e)
          (λ db. ok (
            unwrap_or
              (x.retry_from_str
                (retry_policy_json (find (has_step activity.step_id) db.workflow_steps)))
              default_retry_policy))
    db_write (λ e. e)
        (update_activity_state x now.sql activity.id ActivityState.failed none
          (some "Heartbeat timeout"))
    if ltb (from_u32 activity.attempt) policy.maximum_attempts
        then schedule_retry now activity.step_id policy (from_u32 activity.attempt)
        else give_up now activity.step_id (from_u32 activity.attempt)

  unfoldable pub handle_heartbeat_timeout : Now → String → Exec Server DbError (Unit {0})
  unfolding time_out find_activity
  handle_heartbeat_timeout now activity_id = do
    activity ← db_read (λ e. e) (find_activity activity_id)
    if activity.state == "running" then time_out now activity else pure tt

  unfoldable pub process_all : Now → List WorkflowRow → Exec Server DbError (Unit {0})
  process_all now [] = pure tt
  process_all now (r ∷ rows) = do
    process_single_workflow x now r.run_id
    schedule_timers_for_workflow x now r.run_id
    process_all now rows

  -- `ORDER BY started_at ASC`
  unfoldable pub process_workflows : Now → Exec Server DbError (Unit {0})
  unfolding process_all
  process_workflows now = do
    workflows ←
        db_read (λ e. e)
          (λ db. ok (order_by (λ a b. started_desc b a) (select is_active db.workflows)))
    process_all now workflows

  unfoldable pub handle : Now → EngineEvent → Exec Server DbError (Unit {0})
  handle now (workflow_created run_id) = handle_workflow_created now run_id
  handle now (step_completed run_id) = handle_step_completed now run_id
  handle now schedule_change = process_workflows now
  handle now (retry_due step_id) = handle_retry_due now step_id
  handle now (heartbeat_timeout activity_id) = handle_heartbeat_timeout now activity_id

  -- the loop of `run`: an error is logged, and what the handler wrote before it stays
  unfoldable pub run : Server → List (Now × EngineEvent) → Server
  run s [] = s
  run s ((now, event) ∷ events) = run (handle now event s).1 events
