-- ===== src/Db/Integrity.antt =====
-- The integrity of the database: keys are unique, every state column holds a state that its CHECK clause
-- allows, and every reference finds its row. Every operation of crates/db keeps it.
pub mod Rows
pub mod Operations
pub mod Schedules
use khronos.Prelude.{
  sym, ◌∙◌, String, ◌≡◌, refl, Bool, true, false, ◌&&◌, ◌||◌, not, Option, none, some, List, arith,
  All, if◌then◌else◌, Bool-cases, inl, inr,
}
use mathlib.Core.Path.{subst}
use khronos.Prelude.Result.{Result, ok, err, ◌>>=◌, >>=-eq-ok}
use khronos.Values.{Value, DateTime}
use khronos.Core.Activity.{ActivityState}
use khronos.Core.Workflow.{WorkflowState, WorkflowInstance, WorkflowStepInstance}
use khronos.External.{External}
use khronos.Table.{exists, update, append_row}
use khronos.Table.Keys.{
  HasKey, HasKey-append_row, HasKey-update, All-update, All-append_row, All-mono, exists-update,
  exists-append_row,
}
use khronos.Db.Error.{DbError}
use khronos.Db.Schema.{
  WorkflowRow, StepRow, ActivityRow, ScheduleRow, Db, empty, workflow_state_check, step_state_check,
  activity_state_check, has_run, has_step, has_activity, has_schedule, insert_workflow_row,
  insert_step_row, insert_activity_row, insert_schedule_row, update_checked,
}
use khronos.Db.Workflows.{
  insert_workflow, workflow_to_row, update_workflow_state, cancel_workflow, set_workflow_state,
  value_text, cancellable, cancel_row,
}
use khronos.Db.Activities.{
  insert_workflow_step, step_to_row, update_step_state, insert_activity_attempt,
  update_activity_state, heartbeat_update, is_beating, beat,
}

-- a step's workflow is there, an activity's step is there
abbrev pub HasRun : List WorkflowRow → StepRow → Type 0
HasRun rows r = exists (has_run r.workflow_run_id) rows ≡ true

abbrev pub HasStep : List StepRow → ActivityRow → Type 0
HasStep rows r = exists (has_step r.step_id) rows ≡ true

pub record IsValid (db : Db) : Type 0 where
  pub runs_keyed : HasKey (λ (r : WorkflowRow). r.run_id) db.workflows
  pub steps_keyed : HasKey (λ (r : StepRow). r.id) db.workflow_steps
  pub activities_keyed : HasKey (λ (r : ActivityRow). r.id) db.activities
  pub schedules_keyed : HasKey (λ (r : ScheduleRow). r.schedule_id) db.schedules
  pub run_states : All (λ (r : WorkflowRow). workflow_state_check r.state ≡ true) db.workflows
  pub step_states : All (λ (r : StepRow). step_state_check r.state ≡ true) db.workflow_steps
  pub activity_states : All (λ (r : ActivityRow). activity_state_check r.state ≡ true) db.activities
  pub step_runs : All (HasRun db.workflows) db.workflow_steps
  pub activity_steps : All (HasStep db.workflow_steps) db.activities

pub empty-IsValid : IsValid empty
empty-IsValid = record {
  runs_keyed = tt;
  steps_keyed = tt;
  activities_keyed = tt;
  schedules_keyed = tt;
  run_states = tt;
  step_states = tt;
  activity_states = tt;
  step_runs = tt;
  activity_steps = tt;
}

-- an operation that keeps the integrity where it succeeds
pub record KeepsValid (f : Db → Result Db DbError) : Type 0 where
  pub at : (db : Db) {db' : Db} → IsValid db → f db ≡ ok db' → IsValid db'

-- an UPDATE of a column that no constraint names, or of a state to one that is allowed
module _ (db : Db) (v : IsValid db) where
  pub runs_updated :
      (q : WorkflowRow → Bool) (set : WorkflowRow → WorkflowRow)
      → ((r : WorkflowRow) → (set r).run_id ≡ r.run_id)
      → ((r : WorkflowRow)
          → q r ≡ true
          → workflow_state_check r.state ≡ true
          → workflow_state_check (set r).state ≡ true)
      → IsValid (record db { workflows = update q set db.workflows })
  runs_updated q set keeps allowed = record {
    runs_keyed = HasKey-update (λ r. r.run_id) q set keeps db.workflows v.runs_keyed;
    steps_keyed = v.steps_keyed;
    activities_keyed = v.activities_keyed;
    schedules_keyed = v.schedules_keyed;
    run_states = All-update _ q set allowed db.workflows v.run_states;
    step_states = v.step_states;
    activity_states = v.activity_states;
    step_runs =
        All-mono (HasRun db.workflows) (HasRun (update q set db.workflows))
          (λ r h.
            exists-update (has_run r.workflow_run_id) q set (λ w. rw (keeps w)) db.workflows ∙ h)
          db.workflow_steps v.step_runs;
    activity_steps = v.activity_steps;
  }

  pub steps_updated :
      (q : StepRow → Bool) (set : StepRow → StepRow)
      → ((r : StepRow) → (set r).id ≡ r.id)
      → ((r : StepRow) → (set r).workflow_run_id ≡ r.workflow_run_id)
      → ((r : StepRow)
          → q r ≡ true
          → step_state_check r.state ≡ true
          → step_state_check (set r).state ≡ true)
      → IsValid (record db { workflow_steps = update q set db.workflow_steps })
  steps_updated q set keeps same_run allowed = record {
    runs_keyed = v.runs_keyed;
    steps_keyed = HasKey-update (λ r. r.id) q set keeps db.workflow_steps v.steps_keyed;
    activities_keyed = v.activities_keyed;
    schedules_keyed = v.schedules_keyed;
    run_states = v.run_states;
    step_states = All-update _ q set allowed db.workflow_steps v.step_states;
    activity_states = v.activity_states;
    step_runs =
        All-update (HasRun db.workflows) q set (λ r _ h. rw (same_run r) h) db.workflow_steps
          v.step_runs;
    activity_steps =
        All-mono (HasStep db.workflow_steps) (HasStep (update q set db.workflow_steps))
          (λ r h.
            exists-update (has_step r.step_id) q set (λ w. rw (keeps w)) db.workflow_steps ∙ h)
          db.activities v.activity_steps;
  }

  pub activities_updated :
      (q : ActivityRow → Bool) (set : ActivityRow → ActivityRow)
      → ((r : ActivityRow) → (set r).id ≡ r.id)
      → ((r : ActivityRow) → (set r).step_id ≡ r.step_id)
      → ((r : ActivityRow)
          → q r ≡ true
          → activity_state_check r.state ≡ true
          → activity_state_check (set r).state ≡ true)
      → IsValid (record db { activities = update q set db.activities })
  activities_updated q set keeps same_step allowed = record {
    runs_keyed = v.runs_keyed;
    steps_keyed = v.steps_keyed;
    activities_keyed = HasKey-update (λ r. r.id) q set keeps db.activities v.activities_keyed;
    schedules_keyed = v.schedules_keyed;
    run_states = v.run_states;
    step_states = v.step_states;
    activity_states = All-update _ q set allowed db.activities v.activity_states;
    step_runs = v.step_runs;
    activity_steps =
        All-update (HasStep db.workflow_steps) q set (λ r _ h. rw (same_step r) h) db.activities
          v.activity_steps;
  }
