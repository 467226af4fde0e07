-- ===== src/Db/Workflows/Laws.antt =====
-- What the operations of workflows.rs do to the table `workflows`.
use khronos.Prelude.{
  List, String, ◌≡◌, ◌≢◌, refl, Bool, true, false, Option, none, some, arith, eq_iff,
}
use khronos.Prelude.Result.{Result, ok, err, transpose, ◌>>=◌, map_ok}
use khronos.Values.{Value, DateTime}
use khronos.Core.Workflow.{WorkflowState}
use khronos.External.{External}
use khronos.Table.{find_test, find, update, find-update, exists, append_row}
use khronos.Table.Keys.{HasKey, count-keyed, count-keyed-none, find-update_ne}
use khronos.Db.Error.{DbError, message}
use khronos.Db.Schema.{
  WorkflowRow, Db, has_run, update_checked, workflow_state_check, insert_workflow_row,
}
use khronos.Db.States.{workflow_state_to_str, state_checks}
use khronos.Db.Dates.{format_datetime}
use khronos.Db.Workflows.{
  is_active, set_workflow_state, cancel_row, cancellable, value_text, update_workflow_state,
  cancel_workflow,
}

abbrev pub not_cancellable : DbError
not_cancellable = message "Workflow not found or already in terminal state"

-- what a cancellation does to a run's row, by whether the run is pending or running
abbrev CancelResult : String → String → Db → WorkflowRow → Bool → Type 0
CancelResult now run_id db r false = cancel_workflow now run_id db ≡ err not_cancellable
CancelResult now run_id db r true =
    (db' : Db) × (cancel_workflow now run_id db ≡ ok db')
    × (find (has_run run_id) db'.workflows ≡ some (cancel_row now r))

-- what a cancellation does, by the row of the run
abbrev CancelOutcome : String → String → Db → Option WorkflowRow → Type 0
CancelOutcome now run_id db none = cancel_workflow now run_id db ≡ err not_cancellable
CancelOutcome now run_id db (some r) = CancelResult now run_id db r (is_active r)

-- the database after the cancellation of a run
abbrev pub cancelled : String → String → Db → Db
cancelled now run_id db = record db {
  workflows = update (cancellable run_id) (cancel_row now) db.workflows;
}

pub cancel_workflow_active :
    (now run_id : String) (db : Db) (r : WorkflowRow)
    → HasKey (λ r. r.run_id) db.workflows
    → find (has_run run_id) db.workflows ≡ some r
    → is_active r ≡ true
    → cancel_workflow now run_id db ≡ ok (cancelled now run_id db)
unfolding cancel_workflow
cancel_workflow_active now run_id db r keys e on = ground (
  arith,
  count-keyed {Row = WorkflowRow} (λ r. r.run_id) run_id is_active db.workflows {r = r} keys e,
)

pub find-cancelled :
    (now run_id : String) (db : Db) (r : WorkflowRow)
    → find (has_run run_id) db.workflows ≡ some r
    → is_active r ≡ true
    → find (has_run run_id) (cancelled now run_id db).workflows ≡ some (cancel_row now r)
find-cancelled now run_id db r e on = ground (
  arith,
  find-update (has_run run_id) (cancellable run_id) (cancel_row now) (λ r. refl) db.workflows,
  eq_iff r.run_id run_id,
  find_test (has_run run_id) db.workflows {r = r} e,
)

cancel_result :
    (now run_id : String) (db : Db) (r : WorkflowRow)
    → HasKey (λ r. r.run_id) db.workflows
    → find (has_run run_id) db.workflows ≡ some r
    → (active : Bool) → is_active r ≡ active
    → CancelResult now run_id db r active
unfolding cancel_workflow
cancel_result now run_id db r keys e false off = ground (
  arith,
  count-keyed {Row = WorkflowRow} (λ r. r.run_id) run_id is_active db.workflows {r = r} keys e,
)
cancel_result now run_id db r keys e true on = (
  cancelled now run_id db,
  cancel_workflow_active now run_id db r keys e on,
  find-cancelled now run_id db r e on,
)

cancel_outcome :
    (now run_id : String) (db : Db)
    → HasKey (λ r. r.run_id) db.workflows
    → (found : Option WorkflowRow) → find (has_run run_id) db.workflows ≡ found
    → CancelOutcome now run_id db found
unfolding cancel_workflow
cancel_outcome now run_id db keys none e =
    ground
      (arith, count-keyed-none {Row = WorkflowRow} (λ r. r.run_id) run_id is_active db.workflows e)
cancel_outcome now run_id db keys (some r) e =
    cancel_result now run_id db r keys e (is_active r) refl

-- Where run ids are unique, cancelling a run that is pending or running gives that run's row the state
-- `cancelled` and the completion time, and cancelling any other, or a run that is not there, is an error.
cancel_workflow_lem :
    (now run_id : String) (db : Db)
    → HasKey (λ r. r.run_id) db.workflows
    → CancelOutcome now run_id db (find (has_run run_id) db.workflows)
cancel_workflow_lem now run_id db keys =
    cancel_outcome now run_id db keys (find (has_run run_id) db.workflows) refl

-- A successful cancellation leaves the row of every other run, and every other table, as it was.
cancel_workflow_others :
    (now run_id j : String) (db db' : Db)
    → j ≢ run_id
    → cancel_workflow now run_id db ≡ ok db'
    → (find (has_run j) db'.workflows ≡ find (has_run j) db.workflows)
      × (db'.workflow_steps ≡ db.workflow_steps)
      × (db'.activities ≡ db.activities)
      × (db'.schedules ≡ db.schedules)
unfolding cancel_workflow
cancel_workflow_others now run_id j db db' ne h = ground (
  arith,
  find-update_ne {Row = WorkflowRow} (λ r. r.run_id) j run_id is_active (cancel_row now) (λ r. refl)
      ne db.workflows,
)

module _ (x : External) where
  abbrev pub with_state : String → WorkflowState → Option DateTime → Db → Option String → Db
  with_state run_id state at db result = record db {
    workflows =
        update (has_run run_id)
          (set_workflow_state (workflow_state_to_str state) result (format_datetime x at))
          db.workflows;
  }

  -- an update of the state fails only if the result cannot be written as text
  pub update_workflow_state_lem :
      (run_id : String) (state : WorkflowState) (v : Option Value) (at : Option DateTime) (db : Db)
      → update_workflow_state x run_id state v at db
        ≡ map_ok (with_state run_id state at db) (transpose (value_text x) v)
  unfolding update_workflow_state update_checked
  update_workflow_state_lem run_id state v at db =
      elim (transpose (value_text x) v)
        as (λ r.
          (r >>= λ result. rows_of result >>= λ rows. ok (record db { workflows = rows }))
          ≡ map_ok (with_state run_id state at db) r) [
            | ok t ↦ rw (state_checks.0 state)
            | err e ↦ refl
          ]
    where
      rows_of : Option String → Result (List WorkflowRow) DbError
      rows_of result =
          update_checked workflow_state_check (workflow_state_to_str state) (has_run run_id)
            (set_workflow_state (workflow_state_to_str state) result (format_datetime x at))
            db.workflows

  pub insert_accepts :
      (r : WorkflowRow) (db : Db)
      → workflow_state_check r.state ≡ true
      → exists (has_run r.run_id) db.workflows ≡ false
      → insert_workflow_row r db ≡ ok (record db { workflows = append_row r db.workflows })
  unfolding insert_workflow_row
  insert_accepts r db c n = rw (n, c)
