-- ===== src/Db/Activities/Laws.antt =====
-- What the operations of activities.rs do to the tables `workflow_steps` and `activities`.
use khronos.Prelude.{
  ℕ, List, String, ◌≡◌, ◌≢◌, refl, Bool, true, false, true, false, Option, none, some, arith, ◌==◌,
}
use mathlib.Core.Option
use khronos.Prelude.Result.{Result, ok, err, transpose, ◌>>=◌, map_ok}
use khronos.Values.{Value, DateTime, as_64}
use khronos.Core.Activity.{ActivityState}
use khronos.Core.Workflow.{WorkflowState}
use khronos.External.{External}
use khronos.Table.{find_test, find, update, find-update, exists, append_row}
use khronos.Table.Keys.{HasKey, count-keyed, count-keyed-none}
use khronos.Db.Error.{DbError, message}
use khronos.Db.Schema.{
  StepRow, ActivityRow, Db, has_step, has_activity, update_checked, step_state_check,
  activity_state_check, insert_activity_row,
}
use khronos.Db.States.{workflow_state_to_str, activity_state_to_str, state_checks}
use khronos.Db.Dates.{format_datetime}
use khronos.Db.Workflows.{value_text}
use khronos.Db.Activities.{
  set_step_state, set_activity_state, update_step_state, update_activity_state,
  insert_activity_attempt, is_beating, beat, heartbeat_update,
}

module _ (x : External) where
  abbrev pub with_step :
      String → WorkflowState → Option ℕ → Option DateTime → Db → Option String → Db
  with_step step_id state attempt retry_at db result = record db {
    workflow_steps =
        update (has_step step_id)
          (set_step_state (workflow_state_to_str state) (Option.map as_64 attempt) result
            (format_datetime x retry_at))
          db.workflow_steps;
  }

  abbrev pub with_activity :
      String → String → ActivityState → Option String → Db → Option String → Db
  with_activity now id state error_message db result = record db {
    activities =
        update (has_activity id)
          (set_activity_state now (activity_state_to_str state) result error_message) db.activities;
  }

  -- an update to a state that the CHECK clause allows fails only if the result cannot be written as text
  pub update_step_state_lem :
      (step_id : String) (state : WorkflowState) (attempt : Option ℕ) (v : Option Value)
      (at : Option DateTime) (db : Db)
      → state ≢ WorkflowState.cancelled
      → update_step_state x step_id state attempt v at db
        ≡ map_ok (with_step step_id state attempt at db) (transpose (value_text x) v)
  unfolding update_step_state update_checked
  update_step_state_lem step_id state attempt v at db ne =
      elim (transpose (value_text x) v)
        as (λ r.
          (r >>= λ result. rows_of result >>= λ rows. ok (record db { workflow_steps = rows }))
          ≡ map_ok (with_step step_id state attempt at db) r) [
            | ok t ↦ rw ((state_checks.1 state).1 ne)
            | err e ↦ refl
          ]
    where
      rows_of : Option String → Result (List StepRow) DbError
      rows_of result =
          update_checked step_state_check (workflow_state_to_str state) (has_step step_id)
            (set_step_state (workflow_state_to_str state) (Option.map as_64 attempt) result
              (format_datetime x at))
            db.workflow_steps

  pub update_activity_state_lem :
      (now id : String) (state : ActivityState) (v : Option Value) (error_message : Option String)
      (db : Db)
      → state ≢ ActivityState.retried
      → update_activity_state x now id state v error_message db
        ≡ map_ok (with_activity now id state error_message db) (transpose (value_text x) v)
  unfolding update_activity_state update_checked
  update_activity_state_lem now id state v error_message db ne =
      elim (transpose (value_text x) v)
        as (λ r.
          (r >>= λ result. rows_of result >>= λ rows. ok (record db { activities = rows }))
          ≡ map_ok (with_activity now id state error_message db) r) [
            | ok t ↦ rw ((state_checks.2 state).1 ne)
            | err e ↦ refl
          ]
    where
      rows_of : Option String → Result (List ActivityRow) DbError
      rows_of result =
          update_checked activity_state_check (activity_state_to_str state) (has_activity id)
            (set_activity_state now (activity_state_to_str state) result error_message)
            db.activities

-- the row that an attempt starts with
abbrev pub attempt_row : String → String → String → ℕ → ActivityRow
attempt_row now id step_id attempt = record {
  id = id;
  step_id = step_id;
  attempt = as_64 attempt;
  state = "running";
  started_at = some now;
  completed_at = none;
  last_heartbeat_at = none;
  result_json = none;
  error_message = none;
}

pub insert_activity_attempt_lem :
    (now id step_id : String) (attempt : ℕ) (db : Db)
    → exists (has_activity id) db.activities ≡ false
    → exists (has_step step_id) db.workflow_steps ≡ true
    → insert_activity_attempt now id step_id attempt db
      ≡ ok
          (record db { activities = append_row (attempt_row now id step_id attempt) db.activities })
unfolding insert_activity_attempt insert_activity_row
insert_activity_attempt_lem now id step_id attempt db fresh there = rw (fresh, there)

-- what a heartbeat does, by the row of the activity
abbrev not_running : DbError
not_running = message "Activity not found or not in running state"

-- by whether the activity is running
abbrev HeartbeatResult : String → String → Db → ActivityRow → Bool → Type 0
HeartbeatResult now id db r false = heartbeat_update now id db ≡ err not_running
HeartbeatResult now id db r true =
    (db' : Db) × (heartbeat_update now id db ≡ ok db')
    × (find (has_activity id) db'.activities ≡ some (beat now r))

abbrev HeartbeatOutcome : String → String → Db → Option ActivityRow → Type 0
HeartbeatOutcome now id db none = heartbeat_update now id db ≡ err not_running
HeartbeatOutcome now id db (some r) = HeartbeatResult now id db r (r.state == "running")

heartbeat_result :
    (now id : String) (db : Db) (r : ActivityRow)
    → HasKey (λ (r : ActivityRow). r.id) db.activities
    → find (has_activity id) db.activities ≡ some r
    → (running : Bool) → (r.state == "running") ≡ running
    → HeartbeatResult now id db r running
unfolding heartbeat_update
heartbeat_result now id db r keys e false off = ground (
  arith,
  count-keyed {Row = ActivityRow} (λ r. r.id) id (λ r. r.state == "running") db.activities {r = r}
      keys e,
)
heartbeat_result now id db r keys e true on = (
  record db { activities = update (is_beating id) (beat now) db.activities },
  ground (
    arith,
    count-keyed {Row = ActivityRow} (λ r. r.id) id (λ r. r.state == "running") db.activities {r = r}
        keys e,
  ),
  ground (
    arith,
    find-update (has_activity id) (is_beating id) (beat now) (λ r. refl) db.activities,
    find_test (has_activity id) db.activities {r = r} e,
  ),
)

heartbeat_outcome :
    (now id : String) (db : Db)
    → HasKey (λ (r : ActivityRow). r.id) db.activities
    → (found : Option ActivityRow) → find (has_activity id) db.activities ≡ found
    → HeartbeatOutcome now id db found
unfolding heartbeat_update
heartbeat_outcome now id db keys none e = ground (
  arith,
  count-keyed-none {Row = ActivityRow} (λ r. r.id) id (λ r. r.state == "running") db.activities e,
)
heartbeat_outcome now id db keys (some r) e =
    heartbeat_result now id db r keys e (r.state == "running") refl

-- Where activity ids are unique, a heartbeat gives the row of a running activity the time of the beat,
-- and is an error for an activity that is not running or not there.
heartbeat_update_lem :
    (now id : String) (db : Db)
    → HasKey (λ (r : ActivityRow). r.id) db.activities
    → HeartbeatOutcome now id db (find (has_activity id) db.activities)
heartbeat_update_lem now id db keys =
    heartbeat_outcome now id db keys (find (has_activity id) db.activities) refl
