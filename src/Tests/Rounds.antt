-- ===== src/Tests/Rounds.antt =====
-- A run of two steps, both done by a worker, and a report that comes after a run's end.
use khronos.Prelude.{true, some, none, [], ◌∷◌, ◌≡◌, refl, ap, arith}
use khronos.Values.{object, end}
use khronos.Core.Workflow.{WorkflowStepInstance}
use khronos.Table.{find, exists, update, append_row, count}
use khronos.Db.Workflows.{set_workflow_state}
use khronos.Db.States.{workflow_state_to_str}
use khronos.Server.Engine.Outcome.{settle, started, verdict}
use khronos.Server.Worker.Success.{executed}
use khronos.Db.Schema.{has_run, has_step, has_activity, WorkflowRow, StepRow, Db}
use khronos.Db.Dates.{format_datetime}
use khronos.Server.State.{Server}
use khronos.Server.Worker.Handlers.{parse_result, report_activity_failure}
use khronos.Server.Completion.Rounds.{round, round-db, unworked, worked, Workable, Worked-completed}
use khronos.Prelude.Result.{ok}
use khronos.Server.Worker.Attempts.{AfterFailure}
use khronos.Server.Completion.Late.{concluded, concluded-report_activity_failure}
use khronos.Tests.Libraries.{libraries, policy}
use khronos.Tests.World.{now, run_row, step_row, second_step, waiting, working, activity_row}

abbrev first_step : WorkflowStepInstance
first_step = record second_step { id = 1; step_index = 0 }

abbrev both_wait : Server
both_wait = record waiting {
  db = record {
    namespaces = [];
    schedules = [];
    workflows = run_row ∷ [];
    workflow_steps = step_row "1" 0 "pending" 0 ∷ step_row "2" 1 "pending" 0 ∷ [];
    activities = [];
  };
}

abbrev one_done : Server
one_done = round libraries "1" now now now 1 first_step "{}" both_wait

first_Workable :
    Workable libraries "1" both_wait 1 first_step "{}"
      (step_row "1" 0 "pending" 0)
      (object end)
      "{}"
unfolding find exists parse_result
first_Workable = record {
  fresh = refl;
  stored = refl;
  unfinished = refl;
  parsed = refl;
  written = refl;
}

abbrev after_one : Db
after_one =
    let db = executed libraries now now 1 first_step "{}" both_wait.db in
    settle libraries now "1" (verdict "1" db.workflow_steps) (started libraries now "1" db)

one_done-after_one : one_done.db ≡ after_one
one_done-after_one =
    round-db libraries "1" now now now 1 first_step "{}" both_wait (step_row "1" 0 "pending" 0)
      (object end) "{}" first_Workable

second_Workable :
    Workable libraries "1" one_done 2 second_step "{}"
      (step_row "2" 1 "pending" 0)
      (object end)
      "{}"
unfolding find exists parse_result update append_row workflow_state_to_str
second_Workable = record {
  fresh = ap (λ db. exists (has_activity "2") db.activities) one_done-after_one;
  stored = ap (λ db. find (has_step "2") db.workflow_steps) one_done-after_one;
  unfinished = refl;
  parsed = refl;
  written = refl;
}

run_found :
    find (has_run "1") one_done.db.workflows
    ≡ some (set_workflow_state "running" none (format_datetime libraries (some 12)) run_row)
unfolding find exists update workflow_state_to_str
run_found = ap (λ db. find (has_run "1") db.workflows) one_done-after_one

Worked-completed_example :
    (w : WorkflowRow) × (find
        (has_run "1")
        (round libraries "1" now now now 2 second_step "{}" one_done).db.workflows
      ≡ some w)
    × (w.state ≡ "completed")
    × (w.completed_at ≡ format_datetime libraries (some 12))
unfolding find count
Worked-completed_example =
    Worked-completed libraries "1" both_wait 1 one_done now now now 2 second_step "{}"
      (step_row "2" 1 "pending" 0) (object end) "{}"
      (set_workflow_state "running" none (format_datetime libraries (some 12)) run_row)
      (worked 0 both_wait now now now 1 first_step "{}" (step_row "1" 0 "pending" 0) (object end)
        "{}" unworked first_Workable)
      (omega arith) second_Workable run_found

concluded-report_activity_failure_example :
    ((report_activity_failure libraries now "a" "card declined"
        (concluded libraries now now "1" "a" "{}" working)).0
      ≡ ok true)
    × ((w : WorkflowRow) × (find
            (has_run "1")
            (report_activity_failure libraries now "a" "card declined"
              (concluded libraries now now "1" "a" "{}" working)).1.db.workflows
          ≡ some w)
        × (w.state ≡ "completed"))
    × ((r : StepRow) × (find
            (has_step "2")
            (report_activity_failure libraries now "a" "card declined"
              (concluded libraries now now "1" "a" "{}" working)).1.db.workflow_steps
          ≡ some r)
        × AfterFailure libraries 2 policy r)
unfolding find parse_result
concluded-report_activity_failure_example =
    concluded-report_activity_failure libraries now now now "a" "{}" "card declined" working
      (object end) "{}" activity_row (step_row "2" 1 "running" 1) run_row policy refl refl refl refl
      refl (λ _ _. refl, (λ _ ne. absurd (ne refl), tt)) refl
