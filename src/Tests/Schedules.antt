-- ===== src/Tests/Schedules.antt =====
-- The theorems on the scheduler at concrete inputs.
use khronos.Prelude.{
  ℕ, Option, none, some, [], ◌∷◌, ◌≡◌, ◌≤◌, ◌<◌, ◌+◌, ◌*◌, refl, ap, ◌∙◌, arith, inl, true,
}
use khronos.Prelude.Result.{ok}
use khronos.Table.{find, count, select, exists}
use khronos.Table.Keys.{HasKey}
use khronos.Server.Scheduler.Termination.{by_run}
use khronos.Db.Schema.{ScheduleRow}
use khronos.Db.Dates.{parse_datetime}
use khronos.Server.State.{Server}
use khronos.Server.Scheduler.Times.{
  info_of, get_last_started, check_interval, calculate_next_interval_fire,
}
use khronos.Server.Scheduler.Start.{Firing}
use khronos.Server.Scheduler.Process.{process_schedule, is_active_run}
use khronos.Server.Scheduler.Heap.{ScheduleEntry, Heap}
use khronos.Server.Scheduler.Run.{Scheduler, fire_due, on_sleep, sleep_duration}
use khronos.Server.Scheduler.Due.{FiresDue, fire_due_lem}
use khronos.Server.Scheduler.Once.{RefusesBackslash, FiresOnce, on_sleep-once}
use khronos.Server.Scheduler.Run.{on_change, reload_all_schedules, next_fires, keep_earliest}
use khronos.Server.Scheduler.Entries.{AtMostOnce, changed, slept, begun, round, Looped-AtMostOnce}
use khronos.Server.Scheduler.Sleep.{WakesFor, sleep_duration_lem}
use khronos.Server.Scheduler.Missed.{WholeSeconds, FarAhead, process_schedule-missed}
use khronos.Server.Scheduler.Intervals.{
  AddsSeconds, calculate_next_interval_fire_lem, calculate_next_interval_fire-check_interval,
}
use khronos.Server.Scheduler.Overlap.{process_schedule-at_most_one}
use khronos.Tests.Libraries.{libraries, hourly}
use khronos.Tests.World.{chars, now, run_row, working, scheduled_db, schedule_row}

abbrev firing : Firing
firing = record { now = now; run_id = 2; ids = λ i. i }

-- a schedule that fires every minute, and skips while its run is active
abbrev minutely : ScheduleRow
minutely = record schedule_row {
  spec_type = "interval";
  cron_expressions = none;
  interval_seconds = some 60;
  overlap_policy = "skip";
}

-- its run is at work
abbrev ticking : Server
ticking = record working {
  db = record working.db {
    schedules = minutely ∷ [];
    workflows = record run_row { workflow_id = "schedule:hourly-2" } ∷ [];
  };
}

abbrev entry : ℕ → ScheduleEntry
entry t = record { next_fire_time = t; schedule_id = "hourly" }

abbrev entries : Heap
entries = entry 90 ∷ entry 10 ∷ []

fire_due_lem_example :
    FiresDue libraries chars
      (λ i. firing)
      2
      12
      entries
      ticking
      (fire_due libraries 2 chars (λ i. firing) 12 entries ticking)
fire_due_lem_example = fire_due_lem libraries chars (λ i. firing) 2 12 entries ticking (omega arith)

libraries-RefusesBackslash : RefusesBackslash libraries
libraries-RefusesBackslash = record { refuses = refl }

abbrev awake : Scheduler
awake = record { server = ticking; heap = entries }

on_sleep-once_example :
    FiresOnce libraries chars
      (λ i. firing)
      12
      awake
      (on_sleep libraries chars (λ i. firing) 12 13 awake)
on_sleep-once_example =
    on_sleep-once libraries libraries-RefusesBackslash chars (λ i. firing) 12 13 awake

sleep_duration_lem_example : WakesFor 12 (sleep_duration 12 entries) entries
sleep_duration_lem_example =
    sleep_duration_lem 12 (entry 90) (entry 10 ∷ []) (omega arith, (omega arith, tt))

libraries-WholeSeconds : WholeSeconds libraries
libraries-WholeSeconds = record { since = λ from t h k. refl }

libraries-AddsSeconds : AddsSeconds libraries
libraries-AddsSeconds = record { later = λ t n h. refl }

abbrev at_noon : ((ℕ → Option ℕ) → Option ℕ) → Option (ℕ → Option ℕ) → Option ℕ
at_noon g none = none
at_noon g (some f) = g f

some_injective : {a b : ℕ} → ◌≡◌ {A = Option ℕ} (some a) (some b) → a ≡ b
some_injective {a} {b} h = cc

libraries-FarAhead : FarAhead libraries 12 "0 * * * *"
libraries-FarAhead = record {
  ahead = λ upcoming t e u.
      let at : ◌≡◌ {A = Option ℕ} (some (12 + 3_600_000_000_000)) (upcoming 12) =
        ap (at_noon (λ f. f 12)) e in
      let next : 12 + 3_600_000_000_000 ≡ t = some_injective (at ∙ u) in omega (arith, next);
}

process_schedule-missed_example :
    process_schedule libraries chars firing "hourly" (record working { db = scheduled_db })
    ≡ (ok tt, record working { db = scheduled_db })
unfolding find
process_schedule-missed_example =
    process_schedule-missed libraries libraries-WholeSeconds chars firing "hourly"
      (record working { db = scheduled_db }) schedule_row "[]" hourly refl refl refl refl
      (libraries-FarAhead, tt)

abbrev next_minute : ℕ
next_minute = 60_000_000_012

calculate_next_interval_fire_lem_example :
    (t : ℕ) × (calculate_next_interval_fire libraries (info_of libraries minutely) 13 ticking.db
      ≡ ok (some t))
    × (13 ≤ t)
    × ((l : ℕ) → ◌≡◌ {A = Option ℕ} (some 12) (some l) → (13 < t) × (l + 60 * 1_000_000_000 ≤ t))
    × (◌≡◌ {A = Option ℕ} (some 12) none → t ≡ 13)
unfolding get_last_started select parse_datetime
calculate_next_interval_fire_lem_example =
    calculate_next_interval_fire_lem libraries libraries-AddsSeconds (info_of libraries minutely) 60
      13 ticking.db (some 12) refl (omega arith) (omega arith) refl

calculate_next_interval_fire-check_interval_example :
    check_interval libraries "hourly" 60 next_minute (record ticking.db { schedules = [] })
    ≡ ok true
unfolding get_last_started select calculate_next_interval_fire parse_datetime
calculate_next_interval_fire-check_interval_example =
    calculate_next_interval_fire-check_interval libraries libraries-AddsSeconds
      libraries-WholeSeconds (info_of libraries minutely) 60 13 next_minute next_minute ticking.db
      (record ticking.db { schedules = [] }) (some 12) refl (omega arith) (omega arith) refl refl
      refl (omega arith) (λ l h. let same : 12 ≡ l = some_injective h in omega (arith, same))

ticking-keyed : HasKey by_run ticking.db.workflows
unfolding exists
ticking-keyed = (refl, tt)

process_schedule-at_most_one_example :
    count
      (is_active_run libraries "hourly")
      (process_schedule libraries chars firing "hourly" ticking).1.db.workflows
    ≤ 1
unfolding find count
process_schedule-at_most_one_example =
    process_schedule-at_most_one libraries chars firing "hourly" ticking minutely ticking-keyed refl
      (inl refl) (omega arith)

-- the loop at its start, after the schedules are read, and after the first sleep
abbrev starting : Scheduler
starting = record { server = ticking; heap = [] }

abbrev loaded : Scheduler
loaded = on_change libraries 13 starting

abbrev slept_once : Scheduler
slept_once = on_sleep libraries chars (λ i. firing) next_minute next_minute loaded

loaded_test : loaded.heap ≡ record { next_fire_time = next_minute; schedule_id = "hourly" } ∷ []
unfolding on_change reload_all_schedules next_fires keep_earliest calculate_next_interval_fire
    get_last_started select parse_datetime
loaded_test = refl

Looped-AtMostOnce_example : AtMostOnce slept_once.heap
unfolding count
Looped-AtMostOnce_example =
    Looped-AtMostOnce libraries starting
      (round loaded slept_once (round starting loaded begun (changed starting 13))
        (slept loaded chars (λ i. firing) next_minute next_minute))
      (λ id. omega arith)
