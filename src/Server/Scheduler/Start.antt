-- ===== src/Server/Scheduler/Start.antt =====
-- start_schedule_workflow: the run that a schedule starts, and its steps.
use khronos.Prelude.{
  ℕ, ◌+◌, String, true, none, some, List, [], ◌∷◌, ◌==◌, unwrap_or, if◌then◌else◌,
}
use Prim.Native.String.{◌++◌}
use khronos.Prelude.Exec.{Exec, pure, ◌>>◌}
use khronos.Values.{Value, null, string, object, end, field, Uuid, f64_one, f64_two}
use khronos.Core.Schedule.{default_timeouts}
use khronos.Core.Workflow.{WorkflowState, WorkflowInstance, WorkflowStepInstance, ActivityStep}
use khronos.External.{External, Now}
use khronos.Db.Error.{DbError}
use khronos.Db.Workflows.{insert_workflow}
use khronos.Db.Activities.{insert_workflow_step}
use khronos.Server.State.{Server, workflow_created, db_write, notify}
use khronos.Server.Definitions.{Chars, normalize, step_def, cron_job_steps}
use khronos.Server.Workflows.{take_chars}
use khronos.Server.Scheduler.Times.{ScheduleInfo}

-- what a schedule that fires takes from outside: the clock, and fresh UUIDs for the run and, by their
-- index, for its steps
pub record Firing : Type 0 where
  pub now : Now
  pub run_id : Uuid
  pub ids : ℕ → Uuid

-- every workflow but cron_job_workflow
abbrev pub default_steps : List ActivityStep
default_steps =
    step_def "execute_cron_job" 3 f64_two 600 (some 60)
    ∷ step_def "save_cron_output" 2 f64_one 60 none
    ∷ step_def "deliver_cron_result" 3 f64_two 120 (some 30)
    ∷ step_def "mark_job_run_activity" 1 f64_one 30 none
    ∷ step_def "trigger_on_success_jobs" 2 f64_one 60 none
    ∷ []

-- the scheduler's own copy; it has the same steps for cron_job_workflow
unfoldable pub get_workflow_definition : Chars → String → List ActivityStep
get_workflow_definition chars name =
    if normalize chars true name == "cron_job_workflow" then cron_job_steps else default_steps

abbrev pub job_args : String → Value
job_args job_id = if job_id == "" then object end else object (field "job_id" (string job_id) end)

abbrev pub job_step_args : String → Value
job_step_args job_id = if job_id == "" then null else string job_id

module _ (x : External) where
  abbrev pub scheduled_run : Firing → String → ScheduleInfo → WorkflowInstance
  scheduled_run f schedule_id info = record {
    run_id = f.run_id;
    workflow_id = "schedule:" ++ schedule_id ++ "-" ++ take_chars 8 (x.uuid_to_string f.run_id);
    name = info.action_workflow_name;
    task_queue = info.action_task_queue;
    state = WorkflowState.pending;
    args_json = job_args info.action_args_json;
    result_json = none;
    timeouts = unwrap_or (x.timeouts_from_str info.timeouts_json) default_timeouts;
    started_at = some f.now.utc;
    completed_at = none;
    namespace = info.namespace;
  }

  abbrev pub scheduled_step : Firing → ℕ → String → ActivityStep → WorkflowStepInstance
  scheduled_step f index job_id step_def = record {
    id = f.ids index;
    workflow_run_id = f.run_id;
    step_index = index;
    activity_name = step_def.activity_name;
    args_json = job_step_args job_id;
    retry_policy = step_def.retry_policy;
    timeout_secs = step_def.timeout_secs;
    heartbeat_timeout_secs = step_def.heartbeat_timeout_secs;
    state = WorkflowState.pending;
    attempt = 0;
    result_json = none;
    next_retry_at = none;
  }

  -- the loop over the definition's steps
  unfoldable pub insert_steps :
      Firing → String → ℕ → List ActivityStep → Exec Server DbError (Unit {0})
  insert_steps f job_id index [] = pure tt
  insert_steps f job_id index (step_def ∷ steps) = do
    db_write (λ e. e) (insert_workflow_step x f.now.sql (scheduled_step f index job_id step_def))
    insert_steps f job_id (index + 1) steps

  -- `_effective_job_id` of the source is read by nothing, and is left out
  unfoldable pub start_schedule_workflow :
      Chars → Firing → String → ScheduleInfo → Exec Server DbError (Unit {0})
  unfolding insert_steps
  start_schedule_workflow chars f schedule_id info = do
    db_write (λ e. e) (insert_workflow x (scheduled_run f schedule_id info))
    insert_steps f info.action_args_json 0 (get_workflow_definition chars info.action_workflow_name)
    notify (workflow_created (x.uuid_to_string f.run_id))
