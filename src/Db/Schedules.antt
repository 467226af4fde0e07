-- ===== src/Db/Schedules.antt =====
-- crates/db/src/schedules.rs
pub mod Laws
use khronos.Prelude.{
  ℕ, String, Bool, Option, none, some, List, [], ◌==◌, ◌&&◌, text_leb, unwrap_or, if◌then◌else◌,
}
use khronos.Prelude.Result.{Result, ok, err, ok_or, transpose, collect, map_ok, ◌>>=◌}
use khronos.Values.{as_64, Args}
use khronos.Core.Schedule.{
  ScheduleSpec, cron, interval, OverlapPolicy, skip, buffer, terminate_existing, Timeouts, Schedule,
}
use khronos.External.{External}
use khronos.Table.{select, find, count, update, delete}
use khronos.Table.Sorting.{order_by}
use khronos.Db.Error.{DbError, json, unknown_policy}
use khronos.Db.Schema.{ScheduleRow, Db, has_schedule, insert_schedule_row}
use khronos.Db.Dates.{parse_datetime}

abbrev pub spec_type : ScheduleSpec → String
spec_type (cron exprs) = "cron"
spec_type (interval secs) = "interval"

abbrev pub interval_column : ScheduleSpec → Option ℕ
interval_column (cron exprs) = none
interval_column (interval secs) = some (as_64 secs)

abbrev pub overlap_policy : OverlapPolicy → String
overlap_policy skip = "skip"
overlap_policy (buffer n) = "buffer"
overlap_policy terminate_existing = "terminate"

abbrev pub str_to_overlap_policy : String → Result OverlapPolicy DbError
str_to_overlap_policy s =
    if s == "skip"
    then ok skip
    else if s == "buffer"
    then ok (buffer 1)
    else if s == "terminate"
    then ok terminate_existing
    else err (unknown_policy s)

-- `WHERE schedule_id = ?1 AND namespace = ?2`
abbrev pub of_namespace : String → String → ScheduleRow → Bool
of_namespace schedule_id namespace r = has_schedule schedule_id r && r.namespace == namespace

abbrev pub schedule_asc : ScheduleRow → ScheduleRow → Bool
schedule_asc a b = text_leb a.created_at b.created_at

module _ (x : External) where
  abbrev pub cron_column : ScheduleSpec → Result (Option String) DbError
  cron_column (cron exprs) = map_ok some (ok_or (x.strings_to_string exprs) json)
  cron_column (interval secs) = ok none

  -- `now` is the default of the columns `created_at` and `updated_at`
  unfoldable pub insert_schedule : String → Schedule → Db → Result Db DbError
  insert_schedule now schedule db = do
    cron_expressions ← cron_column schedule.spec
    action_args_json ← ok_or (x.args_to_string schedule.action.args) json
    timeouts_json ← ok_or (x.timeouts_to_string schedule.action.timeouts) json
    insert_schedule_row
        (record {
          schedule_id = schedule.schedule_id;
          namespace = schedule.namespace;
          spec_type = spec_type schedule.spec;
          cron_expressions = cron_expressions;
          interval_seconds = interval_column schedule.spec;
          overlap_policy = overlap_policy schedule.policy;
          action_workflow_name = schedule.action.workflow_name;
          action_task_queue = schedule.action.task_queue;
          action_args_json = action_args_json;
          action_id = some schedule.action.id;
          timeouts_json = timeouts_json;
          created_at = now;
          updated_at = now;
        })
        db

  abbrev pub set_schedule :
      String → Schedule → Option String → String → String → ScheduleRow → ScheduleRow
  set_schedule now schedule cron_expressions action_args_json timeouts_json r = record r {
    spec_type = spec_type schedule.spec;
    cron_expressions = cron_expressions;
    interval_seconds = interval_column schedule.spec;
    overlap_policy = overlap_policy schedule.policy;
    action_workflow_name = schedule.action.workflow_name;
    action_task_queue = schedule.action.task_queue;
    action_args_json = action_args_json;
    action_id = some schedule.action.id;
    timeouts_json = timeouts_json;
    updated_at = now;
  }

  -- the CHECK clauses hold of the texts that are written
  unfoldable pub update_schedule_spec : String → String → String → Schedule → Db → Result Db DbError
  update_schedule_spec now schedule_id namespace schedule db = do
    cron_expressions ← cron_column schedule.spec
    action_args_json ← ok_or (x.args_to_string schedule.action.args) json
    timeouts_json ← ok_or (x.timeouts_to_string schedule.action.timeouts) json
    ok (record db {
      schedules =
          update (of_namespace schedule_id namespace)
            (set_schedule now schedule cron_expressions action_args_json timeouts_json)
            db.schedules;
    })

  abbrev pub read_spec : ScheduleRow → Result ScheduleSpec DbError
  read_spec r =
      if r.spec_type == "cron"
      then elim r.cron_expressions [
        | none ↦ ok (cron [])
        | some text ↦ map_ok cron (ok_or (x.strings_from_str text) json)
      ]
      else ok (interval (as_64 (unwrap_or r.interval_seconds 0)))

  unfoldable pub row_to_schedule : ScheduleRow → Result Schedule DbError
  row_to_schedule r = do
    spec ← read_spec r
    policy ← str_to_overlap_policy r.overlap_policy
    args ← ok_or (x.args_from_str r.action_args_json) json
    timeouts ← ok_or (x.timeouts_from_str r.timeouts_json) json
    created_at ← parse_datetime x r.created_at
    updated_at ← parse_datetime x r.updated_at
    ok (record {
      schedule_id = r.schedule_id;
      namespace = r.namespace;
      spec = spec;
      action = record {
        workflow_name = r.action_workflow_name;
        task_queue = r.action_task_queue;
        args = args;
        id = unwrap_or r.action_id "";
        timeouts = timeouts;
      };
      policy = policy;
      created_at = created_at;
      updated_at = updated_at;
    })

  unfoldable pub get_schedule : String → Db → Result (Option Schedule) DbError
  get_schedule schedule_id db =
      transpose row_to_schedule (find (has_schedule schedule_id) db.schedules)

  unfoldable pub list_schedules : String → Db → Result (List Schedule) DbError
  list_schedules namespace db =
      collect row_to_schedule
        (order_by schedule_asc (select (λ r. r.namespace == namespace) db.schedules))

-- the number of rows deleted, and what is left
unfoldable pub delete_schedule : String → String → Db → ℕ × Db
delete_schedule schedule_id namespace db = (
  count (of_namespace schedule_id namespace) db.schedules,
  record db { schedules = delete (of_namespace schedule_id namespace) db.schedules },
)
