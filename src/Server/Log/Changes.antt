-- ===== src/Server/Log/Changes.antt =====
-- What a statement does to the tables of steps and of runs.
use khronos.Prelude.{ℕ, String, ◌≡◌, refl, Bool, false, Option, List, arith}
use mathlib.Core.Option
use khronos.Prelude.Result.{ok, transpose, >>=-eq-ok, ok_or}
use khronos.Values.{Value, DateTime, as_64}
use khronos.Core.Workflow.{WorkflowState, WorkflowInstance, WorkflowStepInstance}
use khronos.External.{External}
use khronos.Table.{exists, update, append_row}
use khronos.Db.States.{workflow_state_to_str}
use khronos.Db.Dates.{format_datetime}
use khronos.Db.Error.{json}
use khronos.Db.Schema.{
  WorkflowRow, StepRow, Db, has_step, has_run, insert_step_row, insert_workflow_row, update_checked,
  ScheduleRow, insert_schedule_row, insert_activity_row,
}
use khronos.Db.Workflows.{
  value_text, insert_workflow, update_workflow_state, cancel_workflow, workflow_to_row,
  set_workflow_state, cancellable, cancel_row,
}
use khronos.Db.Activities.{
  step_to_row, set_step_state, insert_workflow_step, update_step_state, insert_activity_attempt,
  update_activity_state, heartbeat_update,
}
use khronos.Core.Activity.{ActivityState}
use khronos.Core.Schedule.{Schedule}
use khronos.Db.Schedules.{insert_schedule, update_schedule_spec, delete_schedule, cron_column}
use khronos.Server.Engine.Process.{start_workflow_row, is_starting, start_row}
use khronos.Server.Engine.Handlers.{reset_step, reset_row}
use khronos.Server.Log.Statements.{
  Stored, IsFresh, Statement, workflow_inserted, step_inserted, workflow_updated, step_updated,
  activity_inserted, activity_updated, heard, run_cancelled, run_started, step_reset,
  schedule_inserted, schedule_row_inserted, schedule_updated, schedule_deleted,
}

pub data StepChange (x : External) (rows rows' : List StepRow) : Type 0 where
  steps_same : rows' ≡ rows → StepChange x rows rows'
  step_added :
      (now : String) (step : WorkflowStepInstance) (r : StepRow)
      → IsFresh x step
      → step_to_row x now step ≡ ok r
      → exists (has_step r.id) rows ≡ false
      → rows' ≡ append_row r rows
      → StepChange x rows rows'
  step_edited :
      (step_id : String) (state : WorkflowState) (attempt : Option ℕ) (v : Option Value)
      (at : Option DateTime) (text : Option String)
      → Stored x v
      → transpose (value_text x) v ≡ ok text
      → rows'
        ≡ update
            (has_step step_id)
            (set_step_state
              (workflow_state_to_str state)
              (Option.map as_64 attempt)
              text
              (format_datetime x at))
            rows
      → StepChange x rows rows'
  step_cleared :
      (step_id : String)
      → rows' ≡ update (has_step step_id) reset_row rows
      → StepChange x rows rows'

-- the columns of a run that no statement changes
pub record SameRun (r r' : WorkflowRow) : Type 0 where
  pub run_id : r'.run_id ≡ r.run_id
  pub workflow_id : r'.workflow_id ≡ r.workflow_id
  pub name : r'.name ≡ r.name
  pub task_queue : r'.task_queue ≡ r.task_queue
  pub args : r'.args_json ≡ r.args_json
  pub execution_timeout : r'.execution_timeout_secs ≡ r.execution_timeout_secs
  pub run_timeout : r'.run_timeout_secs ≡ r.run_timeout_secs
  pub task_timeout : r'.task_timeout_secs ≡ r.task_timeout_secs
  pub namespace : r'.namespace ≡ r.namespace

SameRun-with :
    (r : WorkflowRow) (state : String) (result started completed : Option String)
    → SameRun r (record r {
      state = state;
      result_json = result;
      started_at = started;
      completed_at = completed;
    })
SameRun-with r state result started completed = record {
  run_id = refl;
  workflow_id = refl;
  name = refl;
  task_queue = refl;
  args = refl;
  execution_timeout = refl;
  run_timeout = refl;
  task_timeout = refl;
  namespace = refl;
}

pub data RunChange (rows rows' : List WorkflowRow) : Type 0 where
  runs_same : rows' ≡ rows → RunChange rows rows'
  run_added :
      (r : WorkflowRow)
      → exists (has_run r.run_id) rows ≡ false
      → rows' ≡ append_row r rows
      → RunChange rows rows'
  run_edited :
      (test : WorkflowRow → Bool) (set : WorkflowRow → WorkflowRow)
      → ((r : WorkflowRow) → SameRun r (set r))
      → rows' ≡ update test set rows
      → RunChange rows rows'

abbrev pub Changes : External → Db → Db → Type 0
Changes x db db' =
    StepChange x db.workflow_steps db'.workflow_steps × RunChange db.workflows db'.workflows

module _ (x : External) (db : Db) where
  step_inserted_change :
      (now : String) (step : WorkflowStepInstance) {db' : Db}
      → IsFresh x step
      → insert_workflow_step x now step db ≡ ok db'
      → Changes x db db'
  unfolding insert_workflow_step insert_step_row
  step_inserted_change now step {db' = d} fresh h =
      let (r, e, row) = >>=-eq-ok (step_to_row x now step) (λ r. insert_step_row r db) h in
      (step_added now step r fresh row (ground arith) (ground arith), runs_same (ground arith))

  step_updated_change :
      (step_id : String) (state : WorkflowState) (attempt : Option ℕ) (v : Option Value)
      (at : Option DateTime) {db' : Db}
      → Stored x v
      → update_step_state x step_id state attempt v at db ≡ ok db'
      → Changes x db db'
  unfolding update_step_state update_checked
  step_updated_change step_id state attempt v at {db' = d} stored h =
      let (text, e, written) = >>=-eq-ok (transpose (value_text x) v) _ h in
      (
        step_edited step_id state attempt v at text stored written (ground arith),
        runs_same (ground arith),
      )

  workflow_inserted_change :
      (wf : WorkflowInstance) {db' : Db} → insert_workflow x wf db ≡ ok db' → Changes x db db'
  unfolding insert_workflow insert_workflow_row
  workflow_inserted_change wf {db' = d} h =
      let (r, e, row) = >>=-eq-ok (workflow_to_row x wf) (λ r. insert_workflow_row r db) h in
      (steps_same (ground arith), run_added r (ground arith) (ground arith))

  workflow_updated_change :
      (run_id : String) (state : WorkflowState) (v : Option Value) (at : Option DateTime) {db' : Db}
      → update_workflow_state x run_id state v at db ≡ ok db'
      → Changes x db db'
  unfolding update_workflow_state update_checked
  workflow_updated_change run_id state v at {db' = d} h =
      let (text, e, written) = >>=-eq-ok (transpose (value_text x) v) _ h in
      (
        steps_same (ground arith),
        run_edited (has_run run_id)
            (set_workflow_state (workflow_state_to_str state) text (format_datetime x at))
            (λ r. SameRun-with r _ _ _ _) (ground arith),
      )

  run_cancelled_change :
      (now run_id : String) {db' : Db} → cancel_workflow now run_id db ≡ ok db' → Changes x db db'
  unfolding cancel_workflow
  run_cancelled_change now run_id {db' = d} h = (
    steps_same (ground arith),
    run_edited (cancellable run_id) (cancel_row now) (λ r. SameRun-with r _ _ _ _) (ground arith),
  )

  run_started_change :
      (now run_id : String) {db' : Db}
      → start_workflow_row now run_id db ≡ ok db'
      → Changes x db db'
  unfolding start_workflow_row
  run_started_change now run_id {db' = d} h = (
    steps_same (ground arith),
    run_edited (is_starting run_id) (start_row now) (λ r. SameRun-with r _ _ _ _) (ground arith),
  )

  step_reset_change :
      (step_id : String) {db' : Db} → reset_step x step_id db ≡ ok db' → Changes x db db'
  unfolding reset_step
  step_reset_change step_id {db' = d} h =
      (step_cleared step_id (ground arith), runs_same (ground arith))

  activity_inserted_change :
      (now id step_id : String) (attempt : ℕ) {db' : Db}
      → insert_activity_attempt now id step_id attempt db ≡ ok db'
      → Changes x db db'
  unfolding insert_activity_attempt insert_activity_row
  activity_inserted_change now id step_id attempt {db' = d} h =
      (steps_same (ground arith), runs_same (ground arith))

  activity_updated_change :
      (now id : String) (state : ActivityState) (v : Option Value) (message : Option String)
      {db' : Db}
      → update_activity_state x now id state v message db ≡ ok db'
      → Changes x db db'
  unfolding update_activity_state
  activity_updated_change now id state v message {db' = d} h =
      let (text, e, written) = >>=-eq-ok (transpose (value_text x) v) _ h in
      (steps_same (ground arith), runs_same (ground arith))

  heard_change :
      (now id : String) {db' : Db} → heartbeat_update now id db ≡ ok db' → Changes x db db'
  unfolding heartbeat_update
  heard_change now id {db' = d} h = (steps_same (ground arith), runs_same (ground arith))

  schedule_row_change :
      (r : ScheduleRow) {db' : Db} → insert_schedule_row r db ≡ ok db' → Changes x db db'
  unfolding insert_schedule_row
  schedule_row_change r {db' = d} h = (steps_same (ground arith), runs_same (ground arith))

  schedule_inserted_change :
      (now : String) (schedule : Schedule) {db' : Db}
      → insert_schedule x now schedule db ≡ ok db'
      → Changes x db db'
  unfolding insert_schedule
  schedule_inserted_change now schedule {db' = d} h =
      let (c, h1, _) = >>=-eq-ok (cron_column x schedule.spec) _ h in
      let (a, h2, _) = >>=-eq-ok (ok_or (x.args_to_string schedule.action.args) json) _ h1 in
      let (t, h3, _) =
        >>=-eq-ok (ok_or (x.timeouts_to_string schedule.action.timeouts) json) _ h2 in
      schedule_row_change _ h3

  schedule_updated_change :
      (now id namespace : String) (schedule : Schedule) {db' : Db}
      → update_schedule_spec x now id namespace schedule db ≡ ok db'
      → Changes x db db'
  unfolding update_schedule_spec
  schedule_updated_change now id namespace schedule {db' = d} h =
      let (c, h1, _) = >>=-eq-ok (cron_column x schedule.spec) _ h in
      let (a, h2, _) = >>=-eq-ok (ok_or (x.args_to_string schedule.action.args) json) _ h1 in
      let (t, h3, _) =
        >>=-eq-ok (ok_or (x.timeouts_to_string schedule.action.timeouts) json) _ h2 in
      (steps_same (ground arith), runs_same (ground arith))

  schedule_deleted_change :
      (id namespace : String) {db' : Db}
      → (delete_schedule id namespace db).1 ≡ db'
      → Changes x db db'
  unfolding delete_schedule
  schedule_deleted_change id namespace {db' = d} h =
      (steps_same (ground arith), runs_same (ground arith))

  pub Statement-Changes : {db' : Db} → Statement x db db' → Changes x db db'
  Statement-Changes (workflow_inserted wf h) = workflow_inserted_change wf h
  Statement-Changes (step_inserted now step fresh h) = step_inserted_change now step fresh h
  Statement-Changes (workflow_updated run_id state v at h) =
      workflow_updated_change run_id state v at h
  Statement-Changes (step_updated step_id state attempt v at stored h) =
      step_updated_change step_id state attempt v at stored h
  Statement-Changes (activity_inserted now id step_id attempt h) =
      activity_inserted_change now id step_id attempt h
  Statement-Changes (activity_updated now id state v message h) =
      activity_updated_change now id state v message h
  Statement-Changes (heard now id h) = heard_change now id h
  Statement-Changes (run_cancelled now run_id h) = run_cancelled_change now run_id h
  Statement-Changes (run_started now run_id h) = run_started_change now run_id h
  Statement-Changes (step_reset step_id h) = step_reset_change step_id h
  Statement-Changes (schedule_inserted now schedule h) = schedule_inserted_change now schedule h
  Statement-Changes (schedule_row_inserted r h) = schedule_row_change r h
  Statement-Changes (schedule_updated now id namespace schedule h) =
      schedule_updated_change now id namespace schedule h
  Statement-Changes (schedule_deleted id namespace h) = schedule_deleted_change id namespace h
