-- ===== src/Db/Integrity/Operations.antt =====
-- Every operation of crates/db that writes keeps the integrity where it succeeds; where it fails, it gives
-- no new database.
use khronos.Prelude.{ℕ, String, ◌≡◌, refl, Bool, Option, arith, Bool-cases, inl, inr}
use mathlib.Core.Option
use mathlib.Core.Path.{subst}
use khronos.Prelude.Result.{Result, ok, transpose, ◌>>=◌, >>=-eq-ok}
use khronos.Values.{as_64, Value, DateTime}
use khronos.Core.Activity.{ActivityState}
use khronos.Core.Workflow.{WorkflowState, WorkflowInstance, WorkflowStepInstance}
use khronos.External.{External}
use khronos.Table.{update}
use khronos.Db.States.{workflow_state_to_str, activity_state_to_str}
use khronos.Db.Dates.{format_datetime}
use khronos.Db.Error.{DbError}
use khronos.Db.Schema.{
  WorkflowRow, StepRow, ActivityRow, Db, workflow_state_check, step_state_check,
  activity_state_check, has_run, has_step, has_activity, insert_workflow_row, insert_step_row,
  update_checked,
}
use khronos.Db.Workflows.{
  insert_workflow, workflow_to_row, update_workflow_state, cancel_workflow, set_workflow_state,
  value_text, cancellable, cancel_row,
}
use khronos.Db.Activities.{
  set_step_state, set_activity_state, insert_workflow_step, step_to_row, update_step_state,
  insert_activity_attempt, update_activity_state, heartbeat_update, is_beating, beat,
}
use khronos.Table.{update-none}
use khronos.Db.Integrity.{IsValid, KeepsValid, runs_updated, steps_updated, activities_updated}
use khronos.Db.Integrity.Rows.{
  insert_workflow_row-KeepsValid, insert_step_row-KeepsValid, insert_activity_row-KeepsValid,
}

-- a conversion that may fail, then a statement
pub KeepsValid-bind :
    {A : Type 0} (m : Result A DbError) (f : A → Db → Result Db DbError)
    → ((a : A) → KeepsValid (f a))
    → KeepsValid (λ db. m >>= λ a. f a db)
KeepsValid-bind m f keeps = record {
  at = λ db {db' = d} v h.
      let (a, e, _) = >>=-eq-ok m (λ a. f a db) h in (keeps a).at db {db' = d} v e;
}

-- a checked UPDATE: the new state is allowed, or there was no row to change
runs_checked :
    (state : String) (test : WorkflowRow → Bool) (set : WorkflowRow → WorkflowRow)
    → ((r : WorkflowRow) → (set r).run_id ≡ r.run_id)
    → ((r : WorkflowRow) → (set r).state ≡ state)
    → KeepsValid (λ db. update_checked workflow_state_check state test set db.workflows >>= λ rows.
        ok (record db { workflows = rows }))
unfolding update_checked
runs_checked state test set keeps sets = record {
  at = λ db {db' = d} v h. elim (Bool-cases (workflow_state_check state)) [
    | inl c ↦
        subst IsValid
          (let e : record db { workflows = update test set db.workflows } ≡ d = ground arith in e)
          (runs_updated db v test set keeps (λ r _ _. rw (sets r) c))
    | inr c ↦
        subst IsValid (let e : db ≡ d = ground (arith, update-none test set db.workflows) in e) v
  ];
}

steps_checked :
    (state : String) (test : StepRow → Bool) (set : StepRow → StepRow)
    → ((r : StepRow) → (set r).id ≡ r.id)
    → ((r : StepRow) → (set r).workflow_run_id ≡ r.workflow_run_id)
    → ((r : StepRow) → (set r).state ≡ state)
    → KeepsValid (λ db. update_checked step_state_check state test set db.workflow_steps >>= λ rows.
        ok (record db { workflow_steps = rows }))
unfolding update_checked
steps_checked state test set keeps same sets = record {
  at = λ db {db' = d} v h. elim (Bool-cases (step_state_check state)) [
    | inl c ↦
        subst IsValid
          (let e : record db { workflow_steps = update test set db.workflow_steps } ≡ d =
              ground arith in
            e)
          (steps_updated db v test set keeps same (λ r _ _. rw (sets r) c))
    | inr c ↦
        subst IsValid (let e : db ≡ d = ground (arith, update-none test set db.workflow_steps) in e)
          v
  ];
}

activities_checked :
    (state : String) (test : ActivityRow → Bool) (set : ActivityRow → ActivityRow)
    → ((r : ActivityRow) → (set r).id ≡ r.id)
    → ((r : ActivityRow) → (set r).step_id ≡ r.step_id)
    → ((r : ActivityRow) → (set r).state ≡ state)
    → KeepsValid (λ db. update_checked activity_state_check state test set db.activities >>= λ rows.
        ok (record db { activities = rows }))
unfolding update_checked
activities_checked state test set keeps same sets = record {
  at = λ db {db' = d} v h. elim (Bool-cases (activity_state_check state)) [
    | inl c ↦
        subst IsValid
          (let e : record db { activities = update test set db.activities } ≡ d = ground arith in e)
          (activities_updated db v test set keeps same (λ r _ _. rw (sets r) c))
    | inr c ↦
        subst IsValid (let e : db ≡ d = ground (arith, update-none test set db.activities) in e) v
  ];
}

module _ (x : External) where
  pub insert_workflow-KeepsValid : (wf : WorkflowInstance) → KeepsValid (insert_workflow x wf)
  unfolding insert_workflow
  insert_workflow-KeepsValid wf =
      KeepsValid-bind (workflow_to_row x wf) insert_workflow_row insert_workflow_row-KeepsValid

  pub insert_workflow_step-KeepsValid :
      (now : String) (step : WorkflowStepInstance) → KeepsValid (insert_workflow_step x now step)
  unfolding insert_workflow_step
  insert_workflow_step-KeepsValid now step =
      KeepsValid-bind (step_to_row x now step) insert_step_row insert_step_row-KeepsValid

  pub update_workflow_state-KeepsValid :
      (run_id : String) (state : WorkflowState) (v : Option Value) (at : Option DateTime)
      → KeepsValid (update_workflow_state x run_id state v at)
  unfolding update_workflow_state
  update_workflow_state-KeepsValid run_id state v at =
      KeepsValid-bind (transpose (value_text x) v) _ λ result.
        runs_checked (workflow_state_to_str state) (has_run run_id)
          (set_workflow_state (workflow_state_to_str state) result (format_datetime x at))
          (λ r. refl) (λ r. refl)

  pub update_step_state-KeepsValid :
      (step_id : String) (state : WorkflowState) (attempt : Option ℕ) (v : Option Value)
      (at : Option DateTime)
      → KeepsValid (update_step_state x step_id state attempt v at)
  unfolding update_step_state
  update_step_state-KeepsValid step_id state attempt v at =
      KeepsValid-bind (transpose (value_text x) v) _ λ result.
        steps_checked (workflow_state_to_str state) (has_step step_id)
          (set_step_state (workflow_state_to_str state) (Option.map as_64 attempt) result
            (format_datetime x at))
          (λ r. refl) (λ r. refl) (λ r. refl)

  pub update_activity_state-KeepsValid :
      (now id : String) (state : ActivityState) (v : Option Value) (error_message : Option String)
      → KeepsValid (update_activity_state x now id state v error_message)
  unfolding update_activity_state
  update_activity_state-KeepsValid now id state v error_message =
      KeepsValid-bind (transpose (value_text x) v) _ λ result.
        activities_checked (activity_state_to_str state) (has_activity id)
          (set_activity_state now (activity_state_to_str state) result error_message) (λ r. refl)
          (λ r. refl) (λ r. refl)

pub insert_activity_attempt-KeepsValid :
    (now id step_id : String) (attempt : ℕ)
    → KeepsValid (insert_activity_attempt now id step_id attempt)
unfolding insert_activity_attempt
insert_activity_attempt-KeepsValid now id step_id attempt = insert_activity_row-KeepsValid _

pub cancel_workflow-KeepsValid : (now run_id : String) → KeepsValid (cancel_workflow now run_id)
unfolding cancel_workflow
cancel_workflow-KeepsValid now run_id = record {
  at = λ db {db' = d} v h.
      subst IsValid
        (let e : record db { workflows = update (cancellable run_id) (cancel_row now) db.workflows }
              ≡ d =
            ground arith in
          e)
        (runs_updated db v (cancellable run_id) (cancel_row now) (λ r. refl) (λ r _ _. refl));
}

pub heartbeat_update-KeepsValid : (now id : String) → KeepsValid (heartbeat_update now id)
unfolding heartbeat_update
heartbeat_update-KeepsValid now id = record {
  at = λ db {db' = d} v h.
      subst IsValid
        (let e : record db { activities = update (is_beating id) (beat now) db.activities } ≡ d =
            ground arith in
          e)
        (activities_updated db v (is_beating id) (beat now) (λ r. refl) (λ r. refl) (λ r _ c. c));
}
