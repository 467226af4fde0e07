-- ===== src/Db/Activities.antt =====
-- crates/db/src/activities.rs
pub mod Laws
pub mod Queries
use khronos.Prelude.{
  ℕ, String, Bool, false, Option, none, some, List, ◌==◌, ◌||◌, ◌&&◌, text_leb, unwrap_or,
  if◌then◌else◌, eqb, is_some, not, [], ◌∷◌,
}
use mathlib.Core.Option
use khronos.Prelude.Result.{Result, ok, err, ok_or, transpose, collect, ◌>>=◌}
use khronos.Values.{Value, DateTime, as_64, as_u32, i64_ltb}
use khronos.Core.Activity.{ActivityState}
use khronos.Core.Workflow.{WorkflowState, WorkflowStepInstance}
use khronos.External.{External}
use khronos.Table.{select, find, first, count, update}
use khronos.Table.Sorting.{order_by}
use khronos.Db.Error.{DbError, json, invalid_uuid, message}
use khronos.Db.Schema.{
  StepRow, ActivityRow, Db, has_step, has_activity, insert_step_row, insert_activity_row,
  step_state_check, activity_state_check, update_checked,
}
use khronos.Db.States.{workflow_state_to_str, str_to_workflow_state, activity_state_to_str}
use khronos.Db.Dates.{format_datetime, parse_step_datetime}
use khronos.Db.Workflows.{value_text}

-- `next_retry_at <= datetime('now')`: not true of NULL
abbrev retry_reached : String → Option String → Bool
retry_reached now none = false
retry_reached now (some at) = text_leb at now

-- the WHERE clause of get_pending_steps
abbrev pub is_due : String → StepRow → Bool
is_due now r =
    (r.state == "pending" && not (is_some r.next_retry_at))
    || ((r.state == "pending" || r.state == "retried") && retry_reached now r.next_retry_at)

-- the WHERE clause of get_next_step_for_workflow, and of process_single_workflow in the engine
abbrev pub is_runnable : String → StepRow → Bool
is_runnable run_id r = r.workflow_run_id == run_id && (r.state == "pending" || r.state == "retried")

abbrev pub created_asc : StepRow → StepRow → Bool
created_asc a b = text_leb a.created_at b.created_at

abbrev pub index_asc : StepRow → StepRow → Bool
index_asc a b = not (i64_ltb b.step_index a.step_index)

abbrev pub set_step_state : String → Option ℕ → Option String → Option String → StepRow → StepRow
set_step_state state attempt result retry_at r = record r {
  state = state;
  attempt = unwrap_or attempt r.attempt;
  result_json = result;
  next_retry_at = retry_at;
}

abbrev pub set_activity_state :
    String → String → Option String → Option String → ActivityRow → ActivityRow
set_activity_state now state result error_message r = record r {
  state = state;
  completed_at = some now;
  result_json = result;
  error_message = error_message;
}

abbrev pub is_beating : String → ActivityRow → Bool
is_beating id r = has_activity id r && r.state == "running"

abbrev pub beat : String → ActivityRow → ActivityRow
beat now r = record r { last_heartbeat_at = some now }

-- an activity with the columns of its step that the join selects
pub record RunningActivity : Type 0 where
  pub id : String
  pub step_id : String
  pub attempt : ℕ
  pub started_at_str : Option String
  pub last_heartbeat_at_str : Option String
  pub workflow_run_id : String
  pub activity_name : String
  pub heartbeat_timeout_secs : Option ℕ

module _ (x : External) where
  unfoldable pub step_to_row : String → WorkflowStepInstance → Result StepRow DbError
  unfolding value_text
  step_to_row now step = do
    args_json ← value_text x step.args_json
    retry_policy_json ← ok_or (x.retry_to_string step.retry_policy) json
    result_json ← transpose (value_text x) step.result_json
    ok (record {
      id = x.uuid_to_string step.id;
      workflow_run_id = x.uuid_to_string step.workflow_run_id;
      step_index = as_64 step.step_index;
      activity_name = step.activity_name;
      args_json = args_json;
      retry_policy_json = retry_policy_json;
      timeout_secs = as_64 step.timeout_secs;
      heartbeat_timeout_secs = Option.map as_64 step.heartbeat_timeout_secs;
      state = workflow_state_to_str step.state;
      attempt = as_64 step.attempt;
      result_json = result_json;
      next_retry_at = format_datetime x step.next_retry_at;
      created_at = now;
    })

  -- `now` is the default of the column `created_at`
  unfoldable pub insert_workflow_step : String → WorkflowStepInstance → Db → Result Db DbError
  unfolding step_to_row
  insert_workflow_step now step db = do row ← step_to_row now step; insert_step_row row db

  unfoldable pub update_step_state :
      String → WorkflowState → Option ℕ → Option Value → Option DateTime → Db → Result Db DbError
  unfolding value_text
  update_step_state step_id new_state attempt result_json next_retry_at db = do
    result ← transpose (value_text x) result_json
    rows ←
        update_checked step_state_check (workflow_state_to_str new_state) (has_step step_id)
          (set_step_state (workflow_state_to_str new_state) (Option.map as_64 attempt) result
            (format_datetime x next_retry_at))
          db.workflow_steps
    ok (record db { workflow_steps = rows })

  unfoldable pub row_to_step : StepRow → Result WorkflowStepInstance DbError
  row_to_step r = do
    id ← ok_or (x.uuid_parse_str r.id) invalid_uuid
    workflow_run_id ← ok_or (x.uuid_parse_str r.workflow_run_id) invalid_uuid
    state ← str_to_workflow_state r.state
    args_json ← ok_or (x.value_from_str r.args_json) json
    retry_policy ← ok_or (x.retry_from_str r.retry_policy_json) json
    result_json ← transpose (λ s. ok_or (x.value_from_str s) json) r.result_json
    next_retry_at ← transpose (parse_step_datetime x) r.next_retry_at
    ok (record {
      id = id;
      workflow_run_id = workflow_run_id;
      step_index = as_64 r.step_index;
      activity_name = r.activity_name;
      args_json = args_json;
      retry_policy = retry_policy;
      timeout_secs = as_64 r.timeout_secs;
      heartbeat_timeout_secs = Option.map as_64 r.heartbeat_timeout_secs;
      state = state;
      attempt = as_u32 r.attempt;
      result_json = result_json;
      next_retry_at = next_retry_at;
    })

  unfoldable pub get_pending_steps : String → Db → Result (List WorkflowStepInstance) DbError
  get_pending_steps now db =
      collect row_to_step (order_by created_asc (select (is_due now) db.workflow_steps))

  unfoldable pub get_next_step_for_workflow :
      String → Db → Result (Option WorkflowStepInstance) DbError
  get_next_step_for_workflow run_id db =
      transpose row_to_step
        (first (order_by index_asc (select (is_runnable run_id) db.workflow_steps)))

  unfoldable pub update_activity_state :
      String → String → ActivityState → Option Value → Option String → Db → Result Db DbError
  unfolding value_text
  update_activity_state now id new_state result_json error_message db = do
    result ← transpose (value_text x) result_json
    rows ←
        update_checked activity_state_check (activity_state_to_str new_state) (has_activity id)
          (set_activity_state now (activity_state_to_str new_state) result error_message)
          db.activities
    ok (record db { activities = rows })

unfoldable pub insert_activity_attempt : String → String → String → ℕ → Db → Result Db DbError
insert_activity_attempt now id step_id attempt = insert_activity_row (record {
  id = id;
  step_id = step_id;
  attempt = as_64 attempt;
  state = "running";
  started_at = some now;
  completed_at = none;
  last_heartbeat_at = none;
  result_json = none;
  error_message = none;
})

unfoldable pub heartbeat_update : String → String → Db → Result Db DbError
heartbeat_update now id db =
    if eqb (count (is_beating id) db.activities) 0
    then err (message "Activity not found or not in running state")
    else ok (record db { activities = update (is_beating id) (beat now) db.activities })

-- the join: an activity has one step at most, since `workflow_steps.id` is a key
abbrev joined : List StepRow → List ActivityRow → List RunningActivity
joined steps [] = []
joined steps (a ∷ rows) =
    let rest = joined steps rows in
    elim (find (has_step a.step_id) steps) [
      | none ↦ rest
      | some ws ↦
          record {
            id = a.id;
            step_id = a.step_id;
            attempt = as_u32 a.attempt;
            started_at_str = a.started_at;
            last_heartbeat_at_str = a.last_heartbeat_at;
            workflow_run_id = ws.workflow_run_id;
            activity_name = ws.activity_name;
            heartbeat_timeout_secs = Option.map as_64 ws.heartbeat_timeout_secs;
          }
          ∷ rest
    ]

unfoldable pub get_running_activities : Db → Result (List RunningActivity) DbError
get_running_activities db =
    ok (joined db.workflow_steps (select (λ a. a.state == "running") db.activities))
