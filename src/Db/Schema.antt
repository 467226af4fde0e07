-- ===== src/Db/Schema.antt =====
-- crates/db/src/schema.rs: the tables, their columns and their constraints. TEXT columns are texts,
-- INTEGER columns the bit patterns of an i64.
use khronos.Prelude.{
  ℕ, String, Bool, Option, List, [], ◌==◌, ◌||◌, ◌&&◌, not, contains, ◌∷◌, if◌then◌else◌,
}
use khronos.Prelude.Result.{Result, ok, err}
use khronos.Table.{exists, update, append_row}
use khronos.Db.Error.{DbError, constraint}

pub record WorkflowRow : Type 0 where
  pub run_id : String
  pub workflow_id : String
  pub name : String
  pub task_queue : String
  pub state : String
  pub args_json : String
  pub result_json : Option String
  pub execution_timeout_secs : Option ℕ
  pub run_timeout_secs : Option ℕ
  pub task_timeout_secs : Option ℕ
  pub started_at : Option String
  pub completed_at : Option String
  pub namespace : String

pub record StepRow : Type 0 where
  pub id : String
  pub workflow_run_id : String
  pub step_index : ℕ
  pub activity_name : String
  pub args_json : String
  pub retry_policy_json : String
  pub timeout_secs : ℕ
  pub heartbeat_timeout_secs : Option ℕ
  pub state : String
  pub attempt : ℕ
  pub result_json : Option String
  pub next_retry_at : Option String
  pub created_at : String

pub record ActivityRow : Type 0 where
  pub id : String
  pub step_id : String
  pub attempt : ℕ
  pub state : String
  pub started_at : Option String
  pub completed_at : Option String
  pub last_heartbeat_at : Option String
  pub result_json : Option String
  pub error_message : Option String

pub record ScheduleRow : Type 0 where
  pub schedule_id : String
  pub namespace : String
  pub spec_type : String
  pub cron_expressions : Option String
  pub interval_seconds : Option ℕ
  pub overlap_policy : String
  pub action_workflow_name : String
  pub action_task_queue : String
  pub action_args_json : String
  pub action_id : Option String
  pub timeouts_json : String
  pub created_at : String
  pub updated_at : String

pub record NamespaceRow : Type 0 where
  pub name : String
  pub created_at : String

pub record Db : Type 0 where
  pub namespaces : List NamespaceRow
  pub schedules : List ScheduleRow
  pub workflows : List WorkflowRow
  pub workflow_steps : List StepRow
  pub activities : List ActivityRow

-- what `migrate` leaves in a new file
abbrev pub empty : Db
empty = record {
  namespaces = [];
  schedules = [];
  workflows = [];
  workflow_steps = [];
  activities = [];
}

-- the CHECK clauses
abbrev pub workflow_state_check : String → Bool
workflow_state_check = contains ("pending" ∷ "running" ∷ "completed" ∷ "failed" ∷ "cancelled" ∷ [])

abbrev pub step_state_check : String → Bool
step_state_check = contains ("pending" ∷ "running" ∷ "completed" ∷ "failed" ∷ "retried" ∷ [])

abbrev pub activity_state_check : String → Bool
activity_state_check = contains ("pending" ∷ "running" ∷ "completed" ∷ "failed" ∷ [])

abbrev pub spec_type_check : String → Bool
spec_type_check = contains ("cron" ∷ "interval" ∷ [])

abbrev pub overlap_policy_check : String → Bool
overlap_policy_check = contains ("skip" ∷ "buffer" ∷ "terminate" ∷ [])

abbrev pub has_run : String → WorkflowRow → Bool
has_run run_id r = r.run_id == run_id

abbrev pub has_step : String → StepRow → Bool
has_step id r = r.id == id

abbrev pub has_activity : String → ActivityRow → Bool
has_activity id r = r.id == id

abbrev pub has_schedule : String → ScheduleRow → Bool
has_schedule id r = r.schedule_id == id

-- INSERT into each table, under its keys and CHECK clauses (`PRAGMA foreign_keys = ON`)
unfoldable pub insert_workflow_row : WorkflowRow → Db → Result Db DbError
insert_workflow_row r db =
    if not (exists (has_run r.run_id) db.workflows) && workflow_state_check r.state
    then ok (record db { workflows = append_row r db.workflows })
    else err constraint

unfoldable pub insert_step_row : StepRow → Db → Result Db DbError
insert_step_row r db =
    if not (exists (has_step r.id) db.workflow_steps)
      && step_state_check r.state
      && exists (has_run r.workflow_run_id) db.workflows
    then ok (record db { workflow_steps = append_row r db.workflow_steps })
    else err constraint

unfoldable pub insert_activity_row : ActivityRow → Db → Result Db DbError
insert_activity_row r db =
    if not (exists (has_activity r.id) db.activities)
      && activity_state_check r.state
      && exists (has_step r.step_id) db.workflow_steps
    then ok (record db { activities = append_row r db.activities })
    else err constraint

unfoldable pub insert_schedule_row : ScheduleRow → Db → Result Db DbError
insert_schedule_row r db =
    if not (exists (has_schedule r.schedule_id) db.schedules)
      && spec_type_check r.spec_type
      && overlap_policy_check r.overlap_policy
    then ok (record db { schedules = append_row r db.schedules })
    else err constraint

-- UPDATE ... SET state: the CHECK clause is met on the rows that change, so only if there are any
module _ {Row : Type 0} where
  unfoldable pub update_checked :
      (check : String → Bool)
      → String
      → (Row → Bool)
      → (Row → Row)
      → List Row
      → Result (List Row) DbError
  update_checked check state test set rows =
      if check state || not (exists test rows) then ok (update test set rows) else err constraint
