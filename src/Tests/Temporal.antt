-- ===== src/Tests/Temporal.antt =====
-- The theorems on the Temporal-compatible calls at concrete inputs.
use khronos.Prelude.{true, false, none, some, [], ◌∷◌, ◌≡◌, refl}
use khronos.Prelude.Result.{ok, err}
use khronos.Values.{object, end}
use khronos.Table.{find, exists, select}
use khronos.Table.Sorting.{order_by}
use khronos.Db.Error.{message}
use khronos.Db.Schema.{has_run, has_schedule, WorkflowRow}
use khronos.Db.Dates.{format_datetime}
use khronos.Db.Activities.{get_pending_steps, row_to_step}
use khronos.Db.States.{str_to_workflow_state}
use khronos.Server.State.{Server, internal, step_completed}
use khronos.Server.Engine.Handlers.{handle}
use khronos.Server.Worker.Handlers.{report_activity_result, report_activity_failure}
use khronos.Server.Scheduler.Start.{Firing}
use khronos.Server.Scheduler.Process.{process_schedule}
use khronos.Server.Temporal.Runs.{StartWorkflowExecutionRequest}
use khronos.Server.Temporal.Tasks.{respond_activity_task_completed, respond_activity_task_failed}
use khronos.Server.Temporal.Namespaces.{register_namespace}
use khronos.Server.Temporal.Schedules.{ScheduleRequest, StartAction, create_schedule}
use khronos.Server.Temporal.Outcomes.{told, respond_activity_task_failed-report_activity_failure}
use khronos.Server.Temporal.Failure.{respond_activity_task_failed-handle}
use khronos.Server.Temporal.Results.{respond_activity_task_completed-report_activity_result}
use khronos.Server.Temporal.Queue.{QueueOutcome, poll_activity_task_queue_lem}
use khronos.Server.Temporal.Registration.{register_namespace_lem}
use khronos.Server.Temporal.CronSchedules.{create_schedule-process_schedule}
use khronos.Server.Temporal.Schedules.{update_schedule}
use khronos.Server.Temporal.Splicing.{naming, update_schedule-spliced}
use khronos.Tests.Libraries.{libraries, policy}
use khronos.Tests.World.{
  chars, now, run_row, step_row, activity_row, second_step, working, waiting, scheduled_db,
}

-- the second attempt at the second step is in the hands of a worker
abbrev exhausted : Server
exhausted = record working {
  db = record working.db { activities = record activity_row { attempt = 2 } ∷ [] };
}

respond_activity_task_failed-report_activity_failure_example :
    respond_activity_task_failed libraries now "a" (some "card declined") exhausted ≡ (
      ok tt,
      told false "1" (report_activity_failure libraries now "a" "card declined" exhausted).1,
    )
unfolding find
respond_activity_task_failed-report_activity_failure_example =
    respond_activity_task_failed-report_activity_failure libraries now "a" (some "card declined")
      exhausted (record activity_row { attempt = 2 }) (step_row "2" 1 "running" 1) policy refl refl
      refl

respond_activity_task_failed-handle_example :
    (w : WorkflowRow) × (find
        (has_run "1")
        (handle libraries now
          (step_completed "1")
          (respond_activity_task_failed libraries now "a" none exhausted).1).1.db.workflows
      ≡ some w)
    × (w.state ≡ "failed")
    × (w.completed_at ≡ format_datetime libraries (some 12))
unfolding find
respond_activity_task_failed-handle_example =
    respond_activity_task_failed-handle libraries now now "a" none exhausted
      (record activity_row { attempt = 2 }) (step_row "2" 1 "running" 1) policy run_row refl refl
      refl refl refl (λ _. refl, (λ ne. absurd (ne refl), tt))

respond_activity_task_completed-report_activity_result_example :
    (respond_activity_task_completed libraries now "a" (some ("{}" ∷ [])) working).1
    ≡ (report_activity_result libraries now "a" "{}" working).1
respond_activity_task_completed-report_activity_result_example =
    respond_activity_task_completed-report_activity_result libraries now "a" "{}" [] working
      (object end) refl refl

poll_activity_task_queue_lem_example :
    QueueOutcome libraries now 1 (some "default") waiting (some second_step)
unfolding find exists get_pending_steps select order_by row_to_step str_to_workflow_state
poll_activity_task_queue_lem_example =
    poll_activity_task_queue_lem libraries now 1 (some "default") waiting (second_step ∷ []) refl
      refl (refl, tt)

register_namespace_lem_example :
    register_namespace "1700000000" "billing" working
    ≡ (err (internal "Failed to create namespace" (message "no such column")), working)
unfolding exists
register_namespace_lem_example = register_namespace_lem "1700000000" "billing" working

abbrev order : StartWorkflowExecutionRequest
order = record {
  namespace = "";
  workflow_id = "order";
  workflow_type = some "order";
  task_queue = none;
  input = none;
  workflow_execution_timeout = some 60;
  workflow_run_timeout = none;
  workflow_task_timeout = none;
}

abbrev daily_order : StartAction
daily_order = record {
  workflow_type = some "order";
  task_queue = some "default";
  workflow_id = "order";
  input = none;
}

abbrev daily : ScheduleRequest
daily = record {
  schedule_id = "daily";
  namespace = "";
  schedule = some (record {
    spec = some (record { cron_string = "0 0 * * *" ∷ []; interval = [] });
    action = some (some daily_order);
    overlap_policy = some 1;
  });
}

abbrev firing : Firing
firing = record { now = now; run_id = 2; ids = λ i. i }

-- the schedule is created, and the timers are dropped
abbrev with_daily : Server
with_daily = record (create_schedule now daily working).1 { timers = [] }

create_schedule-process_schedule_example :
    ((create_schedule now daily working).0 ≡ ok tt)
    × (exists (has_schedule "daily") (create_schedule now daily working).1.db.schedules ≡ true)
    × (process_schedule libraries chars firing "daily" with_daily ≡ (ok tt, with_daily))
unfolding exists
create_schedule-process_schedule_example =
    create_schedule-process_schedule libraries now daily "0 0 * * *" [] [] daily_order (some 1)
      working with_daily chars firing refl refl refl refl

update_schedule-spliced_example :
    update_schedule
      (λ sql id namespace db. ok db)
      (λ n. "0")
      (record {
        schedule_id = "hourly";
        namespace = "";
        schedule = some (naming "order', action_task_queue = 'fast" none);
      })
      (record working { db = scheduled_db })
    ≡ update_schedule
        (λ sql id namespace db. ok db)
        (λ n. "0")
        (record {
          schedule_id = "hourly";
          namespace = "";
          schedule = some (naming "order" (some "fast"));
        })
        (record working { db = scheduled_db })
update_schedule-spliced_example =
    update_schedule-spliced (λ sql id namespace db. ok db) (λ n. "0") "hourly" "" "order" "fast"
      (record working { db = scheduled_db })
