-- ===== src/Db/Integrity/Rows.antt =====
-- An INSERT that is accepted keeps the integrity.
use khronos.Prelude.{sym, ◌≡◌, Bool, true, false, List, arith}
use mathlib.Core.Path.{subst}
use khronos.Prelude.Result.{ok}
use khronos.Table.{exists, append_row}
use khronos.Table.Keys.{HasKey-append_row, All-append_row, All-mono, exists-append_row}
use khronos.Db.Schema.{
  WorkflowRow, StepRow, ActivityRow, ScheduleRow, Db, workflow_state_check, step_state_check,
  activity_state_check, has_run, has_step, has_activity, has_schedule, insert_workflow_row,
  insert_step_row, insert_activity_row, insert_schedule_row,
}
use khronos.Db.Integrity.{IsValid, HasRun, HasStep, KeepsValid}

-- what an INSERT that is accepted has checked
run_accepted :
    (r : WorkflowRow) (db : Db) {db' : Db}
    → insert_workflow_row r db ≡ ok db'
    → (exists (has_run r.run_id) db.workflows ≡ false)
      × (workflow_state_check r.state ≡ true)
      × (db' ≡ record db { workflows = append_row r db.workflows })
unfolding insert_workflow_row
run_accepted r db {db' = d} h = ground arith

step_accepted :
    (r : StepRow) (db : Db) {db' : Db}
    → insert_step_row r db ≡ ok db'
    → (exists (has_step r.id) db.workflow_steps ≡ false)
      × (step_state_check r.state ≡ true)
      × HasRun db.workflows r
      × (db' ≡ record db { workflow_steps = append_row r db.workflow_steps })
unfolding insert_step_row
step_accepted r db {db' = d} h = ground arith

activity_accepted :
    (r : ActivityRow) (db : Db) {db' : Db}
    → insert_activity_row r db ≡ ok db'
    → (exists (has_activity r.id) db.activities ≡ false)
      × (activity_state_check r.state ≡ true)
      × HasStep db.workflow_steps r
      × (db' ≡ record db { activities = append_row r db.activities })
unfolding insert_activity_row
activity_accepted r db {db' = d} h = ground arith

schedule_accepted :
    (r : ScheduleRow) (db : Db) {db' : Db}
    → insert_schedule_row r db ≡ ok db'
    → (exists (has_schedule r.schedule_id) db.schedules ≡ false)
      × (db' ≡ record db { schedules = append_row r db.schedules })
unfolding insert_schedule_row
schedule_accepted r db {db' = d} h = ground arith

-- a row that is appended leaves every reference with its row
still_exists {ℓ} :
    {Row : Type ℓ} (p : Row → Bool) (r : Row) (rows : List Row)
    → exists p rows ≡ true
    → exists p (append_row r rows) ≡ true
still_exists p r rows h = rw (exists-append_row p r rows, h)

module _ (db : Db) (v : IsValid db) where
  run_appended :
      (r : WorkflowRow)
      → exists (has_run r.run_id) db.workflows ≡ false
      → workflow_state_check r.state ≡ true
      → IsValid (record db { workflows = append_row r db.workflows })
  run_appended r new allowed = record {
    runs_keyed = HasKey-append_row (λ r. r.run_id) r db.workflows new v.runs_keyed;
    steps_keyed = v.steps_keyed;
    activities_keyed = v.activities_keyed;
    schedules_keyed = v.schedules_keyed;
    run_states = All-append_row _ r db.workflows allowed v.run_states;
    step_states = v.step_states;
    activity_states = v.activity_states;
    step_runs =
        All-mono (HasRun db.workflows) (HasRun (append_row r db.workflows))
          (λ s. still_exists (has_run s.workflow_run_id) r db.workflows) db.workflow_steps
          v.step_runs;
    activity_steps = v.activity_steps;
  }

  step_appended :
      (r : StepRow)
      → exists (has_step r.id) db.workflow_steps ≡ false
      → step_state_check r.state ≡ true
      → HasRun db.workflows r
      → IsValid (record db { workflow_steps = append_row r db.workflow_steps })
  step_appended r new allowed run = record {
    runs_keyed = v.runs_keyed;
    steps_keyed = HasKey-append_row (λ r. r.id) r db.workflow_steps new v.steps_keyed;
    activities_keyed = v.activities_keyed;
    schedules_keyed = v.schedules_keyed;
    run_states = v.run_states;
    step_states = All-append_row _ r db.workflow_steps allowed v.step_states;
    activity_states = v.activity_states;
    step_runs = All-append_row (HasRun db.workflows) r db.workflow_steps run v.step_runs;
    activity_steps =
        All-mono (HasStep db.workflow_steps) (HasStep (append_row r db.workflow_steps))
          (λ a. still_exists (has_step a.step_id) r db.workflow_steps) db.activities
          v.activity_steps;
  }

  activity_appended :
      (r : ActivityRow)
      → exists (has_activity r.id) db.activities ≡ false
      → activity_state_check r.state ≡ true
      → HasStep db.workflow_steps r
      → IsValid (record db { activities = append_row r db.activities })
  activity_appended r new allowed step = record {
    runs_keyed = v.runs_keyed;
    steps_keyed = v.steps_keyed;
    activities_keyed = HasKey-append_row (λ r. r.id) r db.activities new v.activities_keyed;
    schedules_keyed = v.schedules_keyed;
    run_states = v.run_states;
    step_states = v.step_states;
    activity_states = All-append_row _ r db.activities allowed v.activity_states;
    step_runs = v.step_runs;
    activity_steps =
        All-append_row (HasStep db.workflow_steps) r db.activities step v.activity_steps;
  }

  schedule_appended :
      (r : ScheduleRow)
      → exists (has_schedule r.schedule_id) db.schedules ≡ false
      → IsValid (record db { schedules = append_row r db.schedules })
  schedule_appended r new = record {
    runs_keyed = v.runs_keyed;
    steps_keyed = v.steps_keyed;
    activities_keyed = v.activities_keyed;
    schedules_keyed = HasKey-append_row (λ r. r.schedule_id) r db.schedules new v.schedules_keyed;
    run_states = v.run_states;
    step_states = v.step_states;
    activity_states = v.activity_states;
    step_runs = v.step_runs;
    activity_steps = v.activity_steps;
  }

pub insert_workflow_row-KeepsValid : (r : WorkflowRow) → KeepsValid (insert_workflow_row r)
insert_workflow_row-KeepsValid r = record {
  at = λ db v h.
      let (new, allowed, e) = run_accepted r db h in
      subst IsValid (sym e) (run_appended db v r new allowed);
}

pub insert_step_row-KeepsValid : (r : StepRow) → KeepsValid (insert_step_row r)
insert_step_row-KeepsValid r = record {
  at = λ db v h.
      let (new, allowed, run, e) = step_accepted r db h in
      subst IsValid (sym e) (step_appended db v r new allowed run);
}

pub insert_activity_row-KeepsValid : (r : ActivityRow) → KeepsValid (insert_activity_row r)
insert_activity_row-KeepsValid r = record {
  at = λ db v h.
      let (new, allowed, step, e) = activity_accepted r db h in
      subst IsValid (sym e) (activity_appended db v r new allowed step);
}

pub insert_schedule_row-KeepsValid : (r : ScheduleRow) → KeepsValid (insert_schedule_row r)
insert_schedule_row-KeepsValid r = record {
  at = λ db v h.
      let (new, e) = schedule_accepted r db h in
      subst IsValid (sym e) (schedule_appended db v r new);
}
