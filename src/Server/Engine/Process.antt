-- ===== src/Server/Engine/Process.antt =====
-- process_single_workflow: the PENDING to RUNNING transition and the end of a workflow.
use khronos.Prelude.{
  String, Bool, Option, none, some, ◌==◌, ◌&&◌, ltb, eqb, unwrap_or, if◌then◌else◌,
}
use khronos.Prelude.Result.{Result, ok}
use khronos.Prelude.Exec.{Exec, ◌>>◌}
use khronos.Core.Workflow.{WorkflowState}
use khronos.External.{External, Now}
use khronos.Table.{select, first, count, update}
use khronos.Table.Sorting.{order_by}
use khronos.Db.Error.{DbError}
use khronos.Db.Schema.{WorkflowRow, StepRow, Db, has_run}
use khronos.Db.Workflows.{update_workflow_state}
use khronos.Db.Activities.{is_runnable, index_asc}
use khronos.Server.State.{Server, db_write}

abbrev pub is_starting : String → WorkflowRow → Bool
is_starting run_id r = has_run run_id r && r.state == "pending"

abbrev pub start_row : String → WorkflowRow → WorkflowRow
start_row now r = record r { state = "running"; started_at = some (unwrap_or r.started_at now) }

-- the first UPDATE
unfoldable pub start_workflow_row : String → String → Db → Result Db DbError
start_workflow_row now run_id db =
    ok (record db { workflows = update (is_starting run_id) (start_row now) db.workflows })

abbrev pub of_run : String → StepRow → Bool
of_run run_id r = r.workflow_run_id == run_id

abbrev pub of_run_in : String → String → StepRow → Bool
of_run_in run_id state r = of_run run_id r && r.state == state

-- the next step to run; the handler only logs it
unfoldable pub next_step : String → Db → Option StepRow
next_step run_id db = first (order_by index_asc (select (is_runnable run_id) db.workflow_steps))

module _ (x : External) where
  -- no step is left to run: the counts decide how the workflow ends
  unfoldable pub finish_workflow : Now → String → Db → Result Db DbError
  finish_workflow now run_id db =
      let total_steps = count (of_run run_id) db.workflow_steps in
      let completed_count = count (of_run_in run_id "completed") db.workflow_steps in
      let failed_count = count (of_run_in run_id "failed") db.workflow_steps in
      if ltb 0 total_steps
      then if ltb 0 failed_count
        then update_workflow_state x run_id WorkflowState.failed none (some now.utc) db
        else if eqb completed_count total_steps
        then update_workflow_state x run_id WorkflowState.completed none (some now.utc) db
        else ok db
      else ok db

  abbrev pub advance : Now → String → Option StepRow → Db → Result Db DbError
  advance now run_id (some step) db = ok db
  advance now run_id none db = finish_workflow now run_id db

  unfoldable pub process_single_workflow : Now → String → Exec Server DbError (Unit {0})
  unfolding start_workflow_row
  process_single_workflow now run_id = do
    db_write (λ e. e) (start_workflow_row now.sql run_id)
    db_write (λ e. e) (λ db. advance now run_id (next_step run_id db) db)
