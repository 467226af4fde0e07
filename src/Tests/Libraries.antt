-- ===== src/Tests/Libraries.antt =====
-- The libraries by concrete functions on a few values.
use khronos.Prelude.{sym, ap, refl}
use khronos.Prelude.Result.{ok, ok-injective}
use mathlib.Core.Path.{subst}
use khronos.Table.{update}
use khronos.Table.Keys.{HasKey, HasKey-update}
use khronos.Db.Schema.{ScheduleRow, Db}
use khronos.Db.Schedules.{of_namespace}
use khronos.Server.Temporal.Update.{Execute, UpdatesSchedules}
use khronos.Prelude.{
  ℕ, String, Bool, false, not, ◌&&◌, ◌||◌, Option, none, some, [], ◌∷◌, refl, ◌==◌, eqb,
  if◌then◌else◌, ◌+◌, ◌*◌, ◌-◌, ◌/◌,
}
use khronos.Values.{Value, string, object, end, f64_one}
use khronos.Core.Activity.{RetryPolicy}
use khronos.Core.Schedule.{default_timeouts}
use khronos.External.{External, NeedsOffset}
use khronos.Prelude.{List}
use khronos.Db.Dates.{FractionIsOptional}

abbrev pub policy : RetryPolicy
policy = record { maximum_attempts = 3; initial_interval_secs = f64_one }

abbrev to_text : Value → Option String
to_text (string s) = some s
to_text (object end) = some "{}"
to_text _ = none

abbrev of_text : String → Option Value
of_text s = if s == "{}" then some (object end) else if s == "" then none else some (string s)

abbrev digit : ℕ → String
digit n = if eqb n 1 then "1" else if eqb n 2 then "2" else "0"

abbrev of_digit : String → Option ℕ
of_digit s = if s == "1" then some 1 else if s == "2" then some 2 else none

abbrev pub hourly : List String
hourly = "0 * * * *" ∷ []

abbrev pub noon : String
noon = "2024-01-01 12:00:00"

abbrev has_backslash : String → Bool
has_backslash String.[] = false
has_backslash (String.◌∷◌ c s) = String.◌∷◌ c String.[] == "\\" || has_backslash s

abbrev pub libraries : External
libraries = record {
  value_to_string = to_text;
  value_from_str = of_text;
  retry_to_string = λ p. some "3";
  retry_from_str = λ s. if s == "3" then some policy else none;
  strings_to_string = λ l. some "[]";
  strings_from_str = λ s. if s == "[]" then some hourly else none;
  args_to_string = λ a. some "{}";
  args_from_str = λ s. if s == "{}" then some [] else none;
  timeouts_to_string = λ t. some "{}";
  timeouts_from_str = λ s. if s == "{}" then some default_timeouts else none;
  map_from_iter = λ args. object end;
  value_display = λ v. "{}";
  uuid_to_string = digit;
  uuid_parse_str = of_digit;
  format = λ d. noon;
  naive_parse = λ fmt s. if s == noon then some 12 else none;
  zoned_parse = λ fmt s. none;
  seconds_later = λ d n. d + n * 1_000_000_000;
  seconds_since = λ from t. (t - from) / 1_000_000_000;
  f64_mul = λ a b. a;
  f64_powi = λ a n. a;
  f64_as_i64 = λ a. 1;
  sqlite_prepares = λ sql. not (has_backslash sql);
  like = λ pattern text. pattern == "schedule:hourly-%" && text == "schedule:hourly-2";
  cron_from_str = λ s. some (λ t. some (t + 3_600_000_000_000));
}

pub libraries-NeedsOffset : (fmt : String) → NeedsOffset libraries fmt
libraries-NeedsOffset fmt = record { fails = λ s. refl }

pub libraries-FractionIsOptional :
    (plain fraction : String) → FractionIsOptional libraries plain fraction
libraries-FractionIsOptional plain fraction = record { accepts = λ s h. h }

-- an UPDATE of the schedules that sets the time of the update alone
abbrev touch : ScheduleRow → ScheduleRow
touch r = record r { updated_at = noon }

abbrev pub touching : Execute
touching sql id namespace db =
    ok (record db { schedules = update (of_namespace id namespace) touch db.schedules })

pub touching-UpdatesSchedules : UpdatesSchedules touching
touching-UpdatesSchedules = record {
  runs_kept =
      λ digits message id namespace db e. ap (λ (d : Db). d.workflows) (sym (ok-injective e));
  steps_kept =
      λ digits message id namespace db e. ap (λ (d : Db). d.workflow_steps) (sym (ok-injective e));
  activities_kept =
      λ digits message id namespace db e. ap (λ (d : Db). d.activities) (sym (ok-injective e));
  key_kept = λ digits message id namespace db e keyed.
      subst (λ (d : Db). HasKey (λ (r : ScheduleRow). r.schedule_id) d.schedules) (ok-injective e)
        (HasKey-update (λ (r : ScheduleRow). r.schedule_id) (of_namespace id namespace) touch
          (λ r. refl) db.schedules keyed);
}
