-- ===== src/Db/Integrity/Schedules.antt =====
-- The operations of schedules.rs keep the integrity of the database.
use khronos.Prelude.{String, List, refl}
use mathlib.Core.Path.{subst}
use khronos.Prelude.Result.{ok_or, ok-injective}
use khronos.Core.Schedule.{Schedule}
use khronos.External.{External}
use khronos.Table.Keys.{HasKey, HasKey-update}
use khronos.Table.Deletion.{HasKey-delete}
use khronos.Db.Error.{json}
use khronos.Db.Schema.{ScheduleRow, Db}
use khronos.Db.Schedules.{
  insert_schedule, update_schedule_spec, delete_schedule, of_namespace, cron_column, set_schedule,
}
use khronos.Db.Integrity.{IsValid, KeepsValid}
use khronos.Db.Integrity.Rows.{insert_schedule_row-KeepsValid}
use khronos.Db.Integrity.Operations.{KeepsValid-bind}

schedules_replaced :
    (db : Db)
    → IsValid db
    → (rows : List ScheduleRow) → HasKey (λ (r : ScheduleRow). r.schedule_id) rows
    → IsValid (record db { schedules = rows })
schedules_replaced db v rows keys = record {
  runs_keyed = v.runs_keyed;
  steps_keyed = v.steps_keyed;
  activities_keyed = v.activities_keyed;
  schedules_keyed = keys;
  run_states = v.run_states;
  step_states = v.step_states;
  activity_states = v.activity_states;
  step_runs = v.step_runs;
  activity_steps = v.activity_steps;
}

module _ (x : External) where
  pub insert_schedule-KeepsValid :
      (now : String) (schedule : Schedule) → KeepsValid (insert_schedule x now schedule)
  unfolding insert_schedule
  insert_schedule-KeepsValid now schedule = KeepsValid-bind (cron_column x schedule.spec) _ λ c.
      KeepsValid-bind (ok_or (x.args_to_string schedule.action.args) json) _ λ a.
        KeepsValid-bind (ok_or (x.timeouts_to_string schedule.action.timeouts) json) _
          λ t. insert_schedule_row-KeepsValid _

  pub update_schedule_spec-KeepsValid :
      (now id namespace : String) (schedule : Schedule)
      → KeepsValid (update_schedule_spec x now id namespace schedule)
  unfolding update_schedule_spec
  update_schedule_spec-KeepsValid now id namespace schedule =
      KeepsValid-bind (cron_column x schedule.spec) _ λ c.
        KeepsValid-bind (ok_or (x.args_to_string schedule.action.args) json) _ λ a.
          KeepsValid-bind (ok_or (x.timeouts_to_string schedule.action.timeouts) json) _ λ t.
            record {
              at = λ db {db' = d} v h. subst IsValid (ok-injective h) (
                  schedules_replaced db v _ (
                    HasKey-update (λ r. r.schedule_id) (of_namespace id namespace)
                      (set_schedule x now schedule c a t) (λ r. refl) db.schedules
                      v.schedules_keyed));
            }

pub delete_schedule-IsValid :
    (id namespace : String) (db : Db) → IsValid db → IsValid (delete_schedule id namespace db).1
unfolding delete_schedule
delete_schedule-IsValid id namespace db v =
    schedules_replaced db v _ (
      HasKey-delete (λ r. r.schedule_id) (of_namespace id namespace) db.schedules v.schedules_keyed)
