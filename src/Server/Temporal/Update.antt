-- ===== src/Server/Temporal/Update.antt =====
-- What update_schedule leaves of the database.
use khronos.Prelude.{ℕ, String, ◌≡◌, refl, Bool-cases, Option-cases, inl, inr}
use khronos.Prelude.Result.{Result, ok, err}
use khronos.Table.{exists}
use khronos.Table.Keys.{HasKey}
use khronos.Db.Error.{DbError}
use khronos.Db.Schema.{ScheduleRow, Db}
use khronos.Db.Schedules.{of_namespace}
use khronos.Db.Integrity.{IsValid}
use khronos.Server.State.{Server, internal, stored}
use khronos.Server.Workflows.{or_default}
use khronos.Server.Temporal.Schedules.{
  ScheduleMessage, ScheduleRequest, update_sql, update_schedule,
}

-- what SQLite does for a statement with its two parameters
abbrev pub Execute : Type 0
Execute = String → String → String → Db → Result Db DbError

-- SQLite's documentation of UPDATE: `UPDATE schedules SET ...` that succeeds changes rows of that table alone, and
-- one that would give two rows one primary key fails. This holds of the text that update_schedule puts together
-- whatever the request has spliced into it: rusqlite's `execute` runs a single statement.
pub record UpdatesSchedules (execute : Execute) : Type 0 where
  pub runs_kept :
      (digits : ℕ → String) (message : ScheduleMessage) (id namespace : String) (db : Db) {db' : Db}
      → execute (update_sql digits message) id namespace db ≡ ok db'
      → db'.workflows ≡ db.workflows
  pub steps_kept :
      (digits : ℕ → String) (message : ScheduleMessage) (id namespace : String) (db : Db) {db' : Db}
      → execute (update_sql digits message) id namespace db ≡ ok db'
      → db'.workflow_steps ≡ db.workflow_steps
  pub activities_kept :
      (digits : ℕ → String) (message : ScheduleMessage) (id namespace : String) (db : Db) {db' : Db}
      → execute (update_sql digits message) id namespace db ≡ ok db'
      → db'.activities ≡ db.activities
  pub key_kept :
      (digits : ℕ → String) (message : ScheduleMessage) (id namespace : String) (db : Db) {db' : Db}
      → execute (update_sql digits message) id namespace db ≡ ok db'
      → HasKey (λ (r : ScheduleRow). r.schedule_id) db.schedules
      → HasKey (λ (r : ScheduleRow). r.schedule_id) db'.schedules

schedules_updated :
    (db db' : Db)
    → db'.workflows ≡ db.workflows
    → db'.workflow_steps ≡ db.workflow_steps
    → db'.activities ≡ db.activities
    → HasKey (λ (r : ScheduleRow). r.schedule_id) db'.schedules
    → IsValid db
    → IsValid db'
schedules_updated db db' runs steps activities keyed v = record {
  runs_keyed = rw runs v.runs_keyed;
  steps_keyed = rw steps v.steps_keyed;
  activities_keyed = rw activities v.activities_keyed;
  schedules_keyed = keyed;
  run_states = rw runs v.run_states;
  step_states = rw steps v.step_states;
  activity_states = rw activities v.activity_states;
  step_runs = rw (runs, steps) v.step_runs;
  activity_steps = rw (steps, activities) v.activity_steps;
}

module _ (execute : Execute) (digits : ℕ → String) (req : ScheduleRequest) (s : Server) where
  -- the call keeps what its one statement keeps
  pub update_schedule-keeps :
      (P : Db → Type 0)
      → P s.db
      → ((message : ScheduleMessage) (db' : Db)
          → execute (update_sql digits message) req.schedule_id (or_default req.namespace) s.db
            ≡ ok db'
          → P db')
      → P (update_schedule execute digits req s).1.db
  unfolding update_schedule
  update_schedule-keeps P p after =
      elim (Bool-cases
        (exists (of_namespace req.schedule_id (or_default req.namespace)) s.db.schedules)) [
          | inr gone ↦ rw gone p
          | inl there ↦ elim (Option-cases req.schedule) [
            | inl e ↦ rw (there, e) p
            | inr (message, e) ↦
                rw (there, e)
                  (written message
                    (execute (update_sql digits message) req.schedule_id (or_default req.namespace)
                      s.db)
                    refl)
          ]
        ]
    where
      written :
          (message : ScheduleMessage) (r : Result Db DbError)
          → execute (update_sql digits message) req.schedule_id (or_default req.namespace) s.db ≡ r
          → P
              (stored (internal "Failed to update schedule") s (
                execute
                  (update_sql digits message)
                  req.schedule_id
                  (or_default req.namespace)
                  s.db)).1.db
      written message (ok db') e = rw e (after message db' e)
      written message (err d) e = rw e p

  pub update_schedule-IsValid :
      UpdatesSchedules execute → IsValid s.db → IsValid (update_schedule execute digits req s).1.db
  update_schedule-IsValid sqlite v = update_schedule-keeps IsValid v (λ message db' e.
      schedules_updated s.db db'
        (sqlite.runs_kept digits message req.schedule_id (or_default req.namespace) s.db e)
        (sqlite.steps_kept digits message req.schedule_id (or_default req.namespace) s.db e)
        (sqlite.activities_kept digits message req.schedule_id (or_default req.namespace) s.db e)
        (sqlite.key_kept digits message req.schedule_id (or_default req.namespace) s.db e
          v.schedules_keyed)
        v)

  pub update_schedule-workflow_steps :
      UpdatesSchedules execute
      → (update_schedule execute digits req s).1.db.workflow_steps ≡ s.db.workflow_steps
  update_schedule-workflow_steps sqlite =
      update_schedule-keeps (λ db. db.workflow_steps ≡ s.db.workflow_steps) refl
        (λ message db' e.
          sqlite.steps_kept digits message req.schedule_id (or_default req.namespace) s.db e)
