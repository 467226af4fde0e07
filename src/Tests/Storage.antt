-- ===== src/Tests/Storage.antt =====
-- The theorems on crates/core and crates/db at concrete inputs.
use khronos.Prelude.{some, ◌≡◌, refl}
use khronos.Prelude.Result.{ok}
use khronos.Table.{exists}
use khronos.Db.Schema.{Db}
use khronos.Db.Dates.{parse_datetime}
use khronos.Db.Workflows.{insert_workflow, get_workflow}
use khronos.Db.Workflows.RoundTrip.{insert_workflow-get_workflow}
use khronos.Db.Schedules.{insert_schedule, get_schedule}
use khronos.Db.Schedules.Laws.{stored_schedule, insert_schedule-get_schedule}
use khronos.Tests.Libraries.{libraries, noon}
use khronos.Tests.World.{new_run, new_run-RunSurvives, schedule, working}

insert_workflow-get_workflow_example :
    (db : Db) × (insert_workflow libraries new_run working.db ≡ ok db)
    × (get_workflow libraries "2" db ≡ ok (some new_run))
unfolding exists
insert_workflow-get_workflow_example =
    insert_workflow-get_workflow libraries new_run working.db refl new_run-RunSurvives

insert_schedule-get_schedule_example :
    (db : Db) × (insert_schedule libraries noon schedule working.db ≡ ok db)
    × (get_schedule libraries "hourly" db ≡ ok (some (stored_schedule 12 schedule)))
unfolding exists parse_datetime
insert_schedule-get_schedule_example =
    insert_schedule-get_schedule libraries noon 12 schedule working.db refl
      (record { text = "[]"; written = refl; read_back = refl })
      (record { text = "{}"; written = refl; read_back = refl })
      (record { text = "{}"; written = refl; read_back = refl }) refl
