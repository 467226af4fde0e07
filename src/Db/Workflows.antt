-- ===== src/Db/Workflows.antt =====
-- crates/db/src/workflows.rs
pub mod Laws
pub mod RoundTrip
use khronos.Prelude.{
  ℕ, zero, String, Bool, true, false, Option, none, some, List, ◌==◌, ◌||◌, ◌&&◌, text_leb,
  if◌then◌else◌, eqb,
}
use mathlib.Core.Option
use khronos.Prelude.Result.{Result, ok, err, ok_or, transpose, collect, map_ok, ◌>>=◌}
use khronos.Values.{Value, DateTime, as_64}
use khronos.Core.Schedule.{Timeouts}
use khronos.Core.Workflow.{WorkflowState, WorkflowInstance}
use khronos.External.{External}
use khronos.Table.{select, find, count, update}
use khronos.Table.Sorting.{order_by}
use khronos.Db.Error.{DbError, json, invalid_uuid, message}
use khronos.Db.Schema.{
  WorkflowRow, Db, has_run, insert_workflow_row, workflow_state_check, update_checked,
}
use khronos.Db.States.{workflow_state_to_str, str_to_workflow_state}
use khronos.Db.Dates.{format_datetime, parse_datetime}

-- `state IN ('pending', 'running')`
abbrev pub is_active : WorkflowRow → Bool
is_active r = r.state == "pending" || r.state == "running"

-- `ORDER BY started_at DESC`: NULL is the least
abbrev nullable_leb : Option String → Option String → Bool
nullable_leb none b = true
nullable_leb (some a) none = false
nullable_leb (some a) (some b) = text_leb a b

abbrev pub started_desc : WorkflowRow → WorkflowRow → Bool
started_desc a b = nullable_leb b.started_at a.started_at

abbrev pub set_workflow_state : String → Option String → Option String → WorkflowRow → WorkflowRow
set_workflow_state state result completed r = record r {
  state = state;
  result_json = result;
  completed_at = completed;
}

abbrev pub cancel_row : String → WorkflowRow → WorkflowRow
cancel_row now r = record r { state = "cancelled"; completed_at = some now }

module _ (x : External) where
  unfoldable pub value_text : Value → Result String DbError
  value_text v = ok_or (x.value_to_string v) json

  unfoldable pub workflow_to_row : WorkflowInstance → Result WorkflowRow DbError
  unfolding value_text
  workflow_to_row wf = do
    args_json ← value_text wf.args_json
    result_json ← transpose value_text wf.result_json
    ok (record {
      run_id = x.uuid_to_string wf.run_id;
      workflow_id = wf.workflow_id;
      name = wf.name;
      task_queue = wf.task_queue;
      state = workflow_state_to_str wf.state;
      args_json = args_json;
      result_json = result_json;
      execution_timeout_secs = Option.map as_64 wf.timeouts.execution_timeout_secs;
      run_timeout_secs = Option.map as_64 wf.timeouts.run_timeout_secs;
      task_timeout_secs = Option.map as_64 wf.timeouts.task_timeout_secs;
      started_at = format_datetime x wf.started_at;
      completed_at = format_datetime x wf.completed_at;
      namespace = wf.namespace;
    })

  unfoldable pub insert_workflow : WorkflowInstance → Db → Result Db DbError
  unfolding workflow_to_row
  insert_workflow wf db = do row ← workflow_to_row wf; insert_workflow_row row db

  unfoldable pub update_workflow_state :
      String → WorkflowState → Option Value → Option DateTime → Db → Result Db DbError
  unfolding value_text
  update_workflow_state run_id new_state result_json completed_at db = do
    result ← transpose value_text result_json
    rows ←
        update_checked workflow_state_check (workflow_state_to_str new_state) (has_run run_id)
          (set_workflow_state (workflow_state_to_str new_state) result
            (format_datetime x completed_at))
          db.workflows
    ok (record db { workflows = rows })

  unfoldable pub row_to_workflow : WorkflowRow → Result WorkflowInstance DbError
  row_to_workflow r = do
    run_id ← ok_or (x.uuid_parse_str r.run_id) invalid_uuid
    state ← str_to_workflow_state r.state
    args_json ← ok_or (x.value_from_str r.args_json) json
    result_json ← transpose (λ s. ok_or (x.value_from_str s) json) r.result_json
    started_at ← transpose (parse_datetime x) r.started_at
    completed_at ← transpose (parse_datetime x) r.completed_at
    ok (record {
      run_id = run_id;
      workflow_id = r.workflow_id;
      name = r.name;
      task_queue = r.task_queue;
      state = state;
      args_json = args_json;
      result_json = result_json;
      timeouts = record {
        execution_timeout_secs = Option.map as_64 r.execution_timeout_secs;
        run_timeout_secs = Option.map as_64 r.run_timeout_secs;
        task_timeout_secs = Option.map as_64 r.task_timeout_secs;
      };
      started_at = started_at;
      completed_at = completed_at;
      namespace = r.namespace;
    })

  unfoldable pub get_workflow : String → Db → Result (Option WorkflowInstance) DbError
  get_workflow run_id db = transpose row_to_workflow (find (has_run run_id) db.workflows)

  abbrev list_test : String → Option WorkflowState → WorkflowRow → Bool
  list_test namespace none r = r.namespace == namespace
  list_test namespace (some state) r =
      r.namespace == namespace && r.state == workflow_state_to_str state

  unfoldable pub list_workflows :
      String → Option WorkflowState → Db → Result (List WorkflowInstance) DbError
  list_workflows namespace state_filter db =
      collect row_to_workflow
        (order_by started_desc (select (list_test namespace state_filter) db.workflows))

-- the run's row, if it is not in a terminal state
abbrev pub cancellable : String → WorkflowRow → Bool
cancellable run_id r = has_run run_id r && is_active r

-- `now` is the text of `datetime('now')`
unfoldable pub cancel_workflow : String → String → Db → Result Db DbError
cancel_workflow now run_id db =
    if eqb (count (cancellable run_id) db.workflows) 0
    then err (message "Workflow not found or already in terminal state")
    else ok (record db { workflows = update (cancellable run_id) (cancel_row now) db.workflows })
