-- ===== src/Server/Scheduler/Times.antt =====
-- When a schedule is due: ScheduleInfo, the last run it started, and the next time by its cron expressions
-- or its interval. Every function has one clock reading, where the source may read the clock again.
use khronos.Prelude.{
  ℕ, String, Bool, true, false, Option, none, some, List, [], ◌∷◌, ◌==◌, ◌&&◌, not, ltb, eqb,
  text_leb, unwrap_or, if◌then◌else◌,
}
use mathlib.Core.Option
use Prim.Native.String.{◌++◌}
use khronos.Prelude.Result.{Result, ok, transpose, map_ok}
use khronos.Values.{DateTime, as_64, i64_ltb}
use khronos.External.{External}
use khronos.Table.{select}
use khronos.Db.Error.{DbError}
use khronos.Db.Schema.{WorkflowRow, ScheduleRow, Db}
use khronos.Db.Dates.{parse_datetime}

pub record ScheduleInfo : Type 0 where
  pub schedule_id : String
  pub namespace : String
  pub spec_type : String
  pub cron_expressions : Option (List String)
  pub interval_seconds : Option ℕ  -- u64
  pub overlap_policy : String
  pub action_workflow_name : String
  pub action_task_queue : String
  pub action_args_json : String
  pub timeouts_json : String

-- the pattern of the workflow ids that a schedule's runs have
abbrev pub run_pattern : String → String
run_pattern schedule_id = "schedule:" ++ schedule_id ++ "-%"

abbrev latest : Option String → Option String → Option String
latest none b = b
latest (some a) none = some a
latest (some a) (some b) = some (if text_leb a b then b else a)

-- `MAX(started_at)`: NULL counts for nothing
abbrev pub max_started : List WorkflowRow → Option String
max_started [] = none
max_started (r ∷ rows) = latest r.started_at (max_started rows)

module _ (x : External) where
  -- the closure that reads a row
  abbrev pub info_of : ScheduleRow → ScheduleInfo
  info_of r = record {
    schedule_id = r.schedule_id;
    namespace = r.namespace;
    spec_type = r.spec_type;
    cron_expressions = elim r.cron_expressions [
      | none ↦ none
      | some text ↦ x.strings_from_str text
    ];
    interval_seconds = Option.map as_64 r.interval_seconds;
    overlap_policy = r.overlap_policy;
    action_workflow_name = r.action_workflow_name;
    action_task_queue = r.action_task_queue;
    action_args_json = r.action_args_json;
    timeouts_json = r.timeouts_json;
  }

  abbrev pub is_run_of : String → WorkflowRow → Bool
  is_run_of schedule_id r = x.like (run_pattern schedule_id) r.workflow_id

  unfoldable pub get_last_started : String → Db → Result (Option DateTime) DbError
  get_last_started schedule_id db =
      transpose (parse_datetime x) (max_started (select (is_run_of schedule_id) db.workflows))

  abbrev interval_passed : ℕ → DateTime → Option String → Result Bool DbError
  interval_passed interval_secs now none = ok true
  interval_passed interval_secs now (some text) =
      map_ok (λ last. not (i64_ltb (x.seconds_since last now) (as_64 interval_secs)))
        (parse_datetime x text)

  unfoldable pub check_interval : String → ℕ → DateTime → Db → Result Bool DbError
  check_interval schedule_id interval_secs now db =
      interval_passed interval_secs now (max_started (select (is_run_of schedule_id) db.workflows))

  -- `diff >= 0 && diff <= 1`
  abbrev pub within_a_second : DateTime → DateTime → Bool
  within_a_second now next_time =
      let diff = x.seconds_since now next_time in not (i64_ltb diff 0) && not (i64_ltb 1 diff)

  abbrev matches : DateTime → Option (DateTime → Option DateTime) → Bool
  matches now none = false
  matches now (some upcoming) = elim (upcoming now) [
    | none ↦ false
    | some next_time ↦ within_a_second now next_time
  ]

  unfoldable pub check_cron_match : List String → DateTime → Bool
  check_cron_match [] now = false
  check_cron_match (expr ∷ expressions) now =
      let rest = check_cron_match expressions now in
      if matches now (x.cron_from_str expr) then true else rest

  unfoldable pub first_upcoming : List String → DateTime → Option DateTime
  first_upcoming [] now = none
  first_upcoming (expr ∷ expressions) now =
      let rest = first_upcoming expressions now in
      elim (x.cron_from_str expr) [
        | none ↦ rest
        | some upcoming ↦ elim (upcoming now) [ none ↦ rest | some next_time ↦ some next_time ]
      ]

  unfoldable pub calculate_next_cron_fire : ScheduleInfo → DateTime → Option DateTime
  unfolding first_upcoming
  calculate_next_cron_fire info now = elim info.cron_expressions [
    | none ↦ none
    | some expressions ↦ first_upcoming expressions now
  ]

  -- a time that is past is pushed forward
  abbrev pub next_interval : ℕ → DateTime → Option DateTime → DateTime
  next_interval interval_secs now none = now
  next_interval interval_secs now (some last) =
      let next = x.seconds_later last (as_64 interval_secs) in
      if ltb now next then next else x.seconds_later now (as_64 interval_secs)

  unfoldable pub calculate_next_interval_fire :
      ScheduleInfo → DateTime → Db → Result (Option DateTime) DbError
  unfolding get_last_started
  calculate_next_interval_fire info now db =
      let interval_secs = unwrap_or info.interval_seconds 0 in
      if eqb interval_secs 0
      then ok none
      else map_ok (λ last. some (next_interval interval_secs now last))
          (get_last_started info.schedule_id db)

  -- the match on `spec_type` of process_schedule
  abbrev pub should_fire : ScheduleInfo → DateTime → Db → Result Bool DbError
  should_fire info now db =
      if info.spec_type == "cron"
      then elim info.cron_expressions [
        | some expressions ↦ ok (check_cron_match expressions now)
        | none ↦ ok false
      ]
      else if info.spec_type == "interval"
      then elim info.interval_seconds [
        | some secs ↦ check_interval info.schedule_id secs now db
        | none ↦ ok false
      ]
      else ok false

  -- the match on `spec_type` of reload_all_schedules and update_schedule_next_fire
  abbrev pub next_fire : ScheduleInfo → DateTime → Db → Result (Option DateTime) DbError
  next_fire info now db =
      if info.spec_type == "cron"
      then ok (calculate_next_cron_fire info now)
      else if info.spec_type == "interval"
      then calculate_next_interval_fire info now db
      else ok none
