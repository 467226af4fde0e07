-- ===== src/Tests/Calls.antt =====
-- The theorems on crates/server at concrete inputs.
use khronos.Prelude.{true, false, none, some, [], ◌∷◌, ◌≡◌, refl, arith}
use khronos.Prelude.Result.{ok, map_ok, map_err}
use khronos.Values.{object, end}
use khronos.Core.Activity.{ActivityState}
use khronos.Core.Workflow.{WorkflowState}
use khronos.Table.{find, exists}
use khronos.Db.Schema.{has_run, has_step, WorkflowRow, StepRow}
use khronos.Db.Dates.{parse_datetime, format_datetime}
use khronos.Db.Activities.{get_pending_steps}
use khronos.Db.Activities.Laws.{with_step, with_activity}
use khronos.Db.Integrity.{IsValid}
use khronos.Server.State.{Server, step_completed, internal}
use khronos.Server.System.{polled, succeeded, start, next, Reachable-IsValid}
use khronos.Server.Completion.{report_activity_result-handle}
use khronos.Server.Worker.Handlers.{
  parse_result, task_of, poll_activity, hand_out, report_activity_result, report_activity_failure,
  no_task,
}
use khronos.Server.Worker.Outcomes.{FailureOutcome, report_activity_failure_lem}
use khronos.Server.Engine.Idempotence.{timeless, process_single_workflow_twice}
use khronos.External.{Now}
use khronos.Prelude.{map}
use khronos.Server.Worker.Executions.{untried, tried, Tally, Failing-Tally}
use khronos.Server.Worker.Attempts.{sent, poll_activity-no_types, report_activity_result_lem}
use khronos.Server.Engine.Handlers.{handle}
use khronos.Server.Engine.Process.{process_single_workflow}
use khronos.Server.Engine.Outcome.{settle, started, process_single_workflow_lem, verdict}
use khronos.Server.Engine.Timers.{schedule_timers_for_workflow}
use khronos.Server.Engine.Unarmed.{schedule_timers_for_workflow-unarmed}
use khronos.Db.Schedules.{get_schedule}
use khronos.Db.Schedules.Laws.{stored_schedule}
use khronos.Server.Workflows.{StartWorkflowRequest, start_workflow}
use khronos.Server.Workflows.Events.{announced, start_workflow-events}
use khronos.Core.Schedule.{interval}
use khronos.Db.Schedules.{row_to_schedule}
use khronos.Server.State.{schedule_change}
use khronos.Server.Schedules.{UpdateScheduleRequest, update_schedule_call}
use khronos.Server.Schedules.Namespaces.{update_schedule_call-unnoticed}
use khronos.Server.Engine.Handlers.{handle_heartbeat_timeout}
use khronos.Server.Engine.Timeouts.{retried, handle_heartbeat_timeout_lem}
use khronos.Tests.Libraries.{libraries, noon, policy, libraries-NeedsOffset}
use khronos.Table.{select}
use khronos.Table.Sorting.{order_by}
use khronos.Db.Activities.{row_to_step, is_due}
use khronos.Table.Rows.{In}
use khronos.Server.Worker.Oldest.{is_before, poll_activity-oldest}
use khronos.Db.States.{str_to_workflow_state}
use khronos.Server.Worker.Handlers.{PollActivityRequest}
use khronos.Server.Workflows.{cancel_workflow_call}
use khronos.Server.Worker.Resurrection.{cancel_workflow_call-poll_activity}
use khronos.Server.Worker.Polling.{PollOutcome, poll_activity_lem}
use khronos.Tests.World.{
  chars, schedule, scheduled_db, now, run_row, step_row, activity_row, second_step, working,
  working-IsValid, waiting,
}

abbrev order : StartWorkflowRequest
order = record {
  workflow_name = "order";
  args = [];
  workflow_id = "";
  task_queue = "";
  timeouts = none;
  namespace = "";
}

Reachable-IsValid_example :
    IsValid
      (report_activity_result libraries now "a" "{}"
        (poll_activity libraries now 1
          (record { task_queue = "default"; activity_types = "charge" ∷ [] })
          working).1).1.db
Reachable-IsValid_example =
    Reachable-IsValid libraries working _ working-IsValid
      (next _ _ (next _ _ start (polled working now 1 _)) (succeeded _ now "a" "{}"))

report_activity_result-handle_example :
    (w : WorkflowRow) × (find
        (has_run "1")
        (handle libraries now
          (step_completed "1")
          (report_activity_result libraries now "a" "{}" working).1).1.db.workflows
      ≡ some w)
    × (w.state ≡ "completed")
    × (w.completed_at ≡ format_datetime libraries (some 12))
unfolding find parse_result
report_activity_result-handle_example =
    report_activity_result-handle libraries now now "a" "{}" working (object end) "{}" activity_row
      (step_row "2" 1 "running" 1) run_row refl refl refl refl refl
      (λ _ _. refl, (λ _ ne. absurd (ne refl), tt))

process_single_workflow_lem_example : process_single_workflow libraries now "1" working ≡ (
  ok tt,
  record working {
    db =
        settle libraries now "1"
          (verdict "1" working.db.workflow_steps)
          (started libraries now "1" working.db);
  },
)
process_single_workflow_lem_example = process_single_workflow_lem libraries now "1" working

report_activity_failure_lem_example :
    FailureOutcome libraries now "a" "card declined" working (some activity_row)
unfolding find
report_activity_failure_lem_example =
    report_activity_failure_lem libraries now "a" "card declined" working

abbrev a_second_later : Now
a_second_later = record { utc = 1_000_000_012; sql = noon }

abbrev once : Server
once = (process_single_workflow libraries now "1" working).1

process_single_workflow_twice_example :
    ((process_single_workflow libraries a_second_later "1" once).0 ≡ ok tt)
    × (map timeless (process_single_workflow libraries a_second_later "1" once).1.db.workflows
        ≡ map timeless once.db.workflows)
    × ((process_single_workflow libraries a_second_later "1" once).1 ≡ record once {
      db = record once.db {
        workflows = (process_single_workflow libraries a_second_later "1" once).1.db.workflows;
      };
    })
process_single_workflow_twice_example =
    process_single_workflow_twice libraries now a_second_later "1" working

report_activity_result_lem_example : report_activity_result libraries now "a" "{}" working ≡ (
  ok true,
  sent (step_completed "1") (record working {
    db =
        with_step libraries "2" WorkflowState.completed none none
          (with_activity libraries noon "a" ActivityState.completed none working.db (some "{}"))
          (some "{}");
  }),
)
unfolding find parse_result
report_activity_result_lem_example =
    report_activity_result_lem libraries now "a" "{}" working (object end) "{}" activity_row
      (step_row "2" 1 "running" 1) refl refl refl refl

poll_activity-no_types_example :
    poll_activity libraries now 1 (record { task_queue = "default"; activity_types = [] }) waiting
    ≡ (
      map_err
          (internal "Failed to get pending steps")
          (map_ok (λ _. no_task) (get_pending_steps libraries noon waiting.db)),
      waiting,
    )
poll_activity-no_types_example = poll_activity-no_types libraries now 1 "default" waiting

schedule_timers_for_workflow-unarmed_example :
    schedule_timers_for_workflow libraries now "1" working ≡ (ok tt, working)
schedule_timers_for_workflow-unarmed_example =
    schedule_timers_for_workflow-unarmed libraries (libraries-NeedsOffset _) now "1" working

start_workflow-events_example :
    (start_workflow libraries chars now 2 (λ i. i) order working).1.events
    ≡ announced "2" working (start_workflow libraries chars now 2 (λ i. i) order working).0
start_workflow-events_example = start_workflow-events libraries chars now 2 (λ i. i) order working

handle_heartbeat_timeout_lem_example :
    handle_heartbeat_timeout libraries now "a" working
    ≡ (ok tt, retried libraries now activity_row (step_row "2" 1 "running" 1) working)
unfolding find
handle_heartbeat_timeout_lem_example =
    handle_heartbeat_timeout_lem libraries now "a" working activity_row (step_row "2" 1 "running" 1)
      refl refl

abbrev every_hour : UpdateScheduleRequest
every_hour = record {
  schedule_id = "hourly";
  namespace = "";
  spec = some (record { spec_type = "interval"; cron_expressions = []; interval_spec = some 3600 });
}

abbrev scheduled : Server
scheduled = record working { db = scheduled_db }

update_schedule_call-unnoticed_example :
    update_schedule_call libraries now every_hour scheduled
    ≡ (ok true, sent schedule_change scheduled)
unfolding find exists get_schedule row_to_schedule parse_datetime
update_schedule_call-unnoticed_example =
    update_schedule_call-unnoticed libraries now every_hour scheduled
      (record { spec_type = "interval"; cron_expressions = []; interval_spec = some 3600 })
      (stored_schedule 12 schedule) (interval 3600) none "{}" "{}" refl refl refl refl refl refl
      refl

abbrev charging : PollActivityRequest
charging = record { task_queue = "default"; activity_types = "charge" ∷ [] }

poll_activity_lem_example : PollOutcome libraries now 1 charging waiting (some second_step)
unfolding find exists get_pending_steps select order_by row_to_step str_to_workflow_state
poll_activity_lem_example =
    poll_activity_lem libraries now 1 charging waiting (second_step ∷ []) refl refl (refl, tt)

cancel_workflow_call-poll_activity_example :
    ((cancel_workflow_call now "1" waiting).0 ≡ ok true)
    × ((w : WorkflowRow) × (find (has_run "1") (cancel_workflow_call now "1" waiting).1.db.workflows
          ≡ some w)
        × (w.state ≡ "cancelled"))
    × ((poll_activity libraries now 1 charging (cancel_workflow_call now "1" waiting).1).0
        ≡ ok (record { task = some (task_of libraries 1 second_step); has_task = true }))
    × ((w : WorkflowRow) × (find
            (has_run "1")
            (poll_activity libraries now 1 charging
              (cancel_workflow_call now "1" waiting).1).1.db.workflows
          ≡ some w)
        × (w.state ≡ "running"))
unfolding find exists get_pending_steps select order_by row_to_step str_to_workflow_state
cancel_workflow_call-poll_activity_example =
    cancel_workflow_call-poll_activity libraries now now 1 charging waiting run_row
      (second_step ∷ []) second_step working-IsValid.runs_keyed refl refl refl refl refl refl

poll_activity-oldest_example :
    ((poll_activity libraries now 1 charging waiting).0
      ≡ ok (record { task = some (task_of libraries 1 second_step); has_task = true }))
    × ((r : StepRow) × In r waiting.db.workflow_steps
        × (row_to_step libraries r ≡ ok second_step)
        × (is_due noon r ≡ true)
        × (exists (is_before libraries noon charging.activity_types r) waiting.db.workflow_steps
            ≡ false))
unfolding find exists get_pending_steps select order_by row_to_step str_to_workflow_state
poll_activity-oldest_example =
    poll_activity-oldest libraries now 1 charging waiting (second_step ∷ []) second_step refl refl
      refl refl

Failing-Tally_example :
    (r : StepRow) × (find
        (has_step "2")
        (report_activity_failure libraries now "1" "card declined"
          (hand_out libraries now 1 second_step waiting).1).1.db.workflow_steps
      ≡ some r)
    × Tally libraries policy "2" 1 r
unfolding find exists
Failing-Tally_example =
    Failing-Tally libraries policy "2" waiting 1
      (report_activity_failure libraries now "1" "card declined"
        (hand_out libraries now 1 second_step waiting).1).1
      (step_row "2" 1 "pending" 0)
      (tried 0 waiting now now 1 second_step "card declined" (step_row "2" 1 "pending" 0) untried
        refl refl refl (record { is_pending = refl; read_attempt = refl; read_policy = refl }))
      refl refl refl (omega arith) (omega arith)
