-- ===== src/Server/Engine/Outcome.antt =====
-- How process_single_workflow ends a run, against a description by the states of the run's steps.
use khronos.Prelude.{
  String, Bool, true, false, Option, none, some, List, ◌≡◌, refl, sym, ◌==◌, ◌&&◌, not,
  if◌then◌else◌, arith, is_some,
}
use khronos.Prelude.Result.{Result, ok}
use khronos.Core.Workflow.{WorkflowState}
use khronos.External.{External, Now}
use khronos.Table.{exists, update, select}
use khronos.Table.Quantifiers.{count-exists, count-and, first-select, first-order_by, exists-and}
use khronos.Db.Error.{DbError}
use khronos.Db.Schema.{StepRow, Db}
use khronos.Db.Workflows.Laws.{update_workflow_state_lem, with_state}
use khronos.Db.Activities.{is_runnable, index_asc}
use khronos.Server.State.{Server}
use khronos.Server.Engine.Process.{
  start_workflow_row, start_row, is_starting, of_run, of_run_in, next_step, finish_workflow,
  advance, process_single_workflow,
}

-- where a run stands, by its steps
pub data Verdict : Type 0 where
  goes_on ends_failed ends_completed : Verdict

-- a step of the run that is not completed
abbrev pub is_open : String → StepRow → Bool
is_open run_id r = of_run run_id r && not (r.state == "completed")

abbrev pub verdict : String → List StepRow → Verdict
verdict run_id steps =
    if exists (is_runnable run_id) steps
    then goes_on
    else if exists (of_run_in run_id "failed") steps
    then ends_failed
    else if exists (of_run run_id) steps && not (exists (is_open run_id) steps)
    then ends_completed
    else goes_on

module _ (x : External) where
  abbrev pub settle : Now → String → Verdict → Db → Db
  settle now run_id goes_on db = db
  settle now run_id ends_failed db = with_state x run_id WorkflowState.failed (some now.utc) db none
  settle now run_id ends_completed db =
      with_state x run_id WorkflowState.completed (some now.utc) db none

  abbrev pub started : Now → String → Db → Db
  started now run_id db = record db {
    workflows = update (is_starting run_id) (start_row now.sql) db.workflows;
  }

  next_step_exists :
      (run_id : String) (db : Db)
      → is_some (next_step run_id db) ≡ exists (is_runnable run_id) db.workflow_steps
  unfolding next_step
  next_step_exists run_id db = rw (
    first-order_by index_asc (select (is_runnable run_id) db.workflow_steps),
    first-select (is_runnable run_id) db.workflow_steps,
  )

  -- the nested tests of finish_workflow and those of `verdict`, by the three answers they look at
  branches_agree :
      (now : Now) (run_id : String) (db : Db) (some_step some_failed some_open : Bool)
      → (some_failed ≡ true → some_step ≡ true)
      → ◌≡◌ {A = Result Db DbError}
          (if some_step
            then if some_failed
              then ok (settle now run_id ends_failed db)
              else if not some_open
              then ok (settle now run_id ends_completed db)
              else ok db
            else ok db)
          (ok (
            settle now run_id
              (if some_failed
                then ends_failed
                else if some_step && not some_open
                then ends_completed
                else goes_on)
              db))
  branches_agree now run_id db true true some_open h = refl
  branches_agree now run_id db true false true h = refl
  branches_agree now run_id db true false false h = refl
  branches_agree now run_id db false true some_open h = ground (arith, h refl)
  branches_agree now run_id db false false some_open h = refl

  finish_settles :
      (now : Now) (run_id : String) (db : Db)
      → exists (is_runnable run_id) db.workflow_steps ≡ false
      → finish_workflow x now run_id db
        ≡ ok (settle now run_id (verdict run_id db.workflow_steps) db)
  unfolding finish_workflow
  finish_settles now run_id db none_left =
      rw
        (
          none_left,
          count-exists (of_run run_id) db.workflow_steps,
          count-exists (of_run_in run_id "failed") db.workflow_steps,
          count-and (of_run run_id) (λ r. r.state == "completed") db.workflow_steps,
          update_workflow_state_lem x run_id WorkflowState.failed none (some now.utc) db,
          update_workflow_state_lem x run_id WorkflowState.completed none (some now.utc) db,
        )
        (branches_agree now run_id db (exists (of_run run_id) db.workflow_steps)
          (exists (of_run_in run_id "failed") db.workflow_steps)
          (exists (is_open run_id) db.workflow_steps)
          (exists-and (of_run run_id) (λ r. r.state == "failed") db.workflow_steps))

  runs_on :
      (now : Now) (run_id : String) (db : Db)
      → exists (is_runnable run_id) db.workflow_steps ≡ true
      → ◌≡◌ {A = Result Db DbError}
          (ok db)
          (ok (settle now run_id (verdict run_id db.workflow_steps) db))
  runs_on now run_id db left = rw left

  advance_settles :
      (now : Now) (run_id : String) (db : Db) (step : Option StepRow)
      → is_some step ≡ exists (is_runnable run_id) db.workflow_steps
      → advance x now run_id step db ≡ ok (settle now run_id (verdict run_id db.workflow_steps) db)
  advance_settles now run_id db none e = finish_settles now run_id db (sym e)
  advance_settles now run_id db (some step) e = runs_on now run_id db (sym e)

  -- Processing a run never fails and touches the table of runs only: a pending run starts, and then the
  -- run ends as the states of its steps say, whatever its own state is: failed if no step is pending or
  -- retried and one has failed, completed if it has steps and all are completed, else not at all.
  pub process_single_workflow_lem :
      (now : Now) (run_id : String) (s : Server)
      → process_single_workflow x now run_id s ≡ (
        ok tt,
        record s {
          db = settle now run_id (verdict run_id s.db.workflow_steps) (started now run_id s.db);
        },
      )
  unfolding process_single_workflow start_workflow_row
  process_single_workflow_lem now run_id s = rw (
      advance_settles now run_id (started now run_id s.db)
        (next_step run_id (started now run_id s.db))
        (next_step_exists run_id (started now run_id s.db)))
