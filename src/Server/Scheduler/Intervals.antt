-- ===== src/Server/Scheduler/Intervals.antt =====
-- The next time of an interval schedule, and the test of the schedule at that time.
use khronos.Prelude.{
  ℕ, String, true, Option, none, some, ◌≡◌, refl, sym, ap, ◌∙◌, ◌≤◌, ◌<◌, ◌+◌, ◌*◌, ◌^◌, arith, ltb,
  not, if◌then◌else◌,
}
use khronos.Prelude.Result.{Result, ok, err, ok-injective}
use khronos.Values.{DateTime, as_64, i64_ltb}
use khronos.External.{External}
use khronos.Table.{select}
use khronos.Db.Error.{DbError}
use khronos.Db.Schema.{Db}
use khronos.Db.Dates.{parse_datetime}
use khronos.Server.Scheduler.Times.{
  ScheduleInfo, max_started, is_run_of, get_last_started, check_interval, next_interval,
  calculate_next_interval_fire,
}
use khronos.Server.Scheduler.Missed.{WholeSeconds}

-- `t + Duration::seconds(n)` of an n that is no negative i64
pub record AddsSeconds (x : External) : Type 0 where
  pub later : (t : DateTime) (n : ℕ) → n < 2 ^ 63 → x.seconds_later t n ≡ t + n * 1_000_000_000

module _ (x : External) (adds : AddsSeconds x) where
  next_interval_lem :
      (n : ℕ) (now : DateTime) (last : Option DateTime)
      → n < 2 ^ 63
      → next_interval x n now last ≡ (elim last [
        | none ↦ now
        | some last ↦
            if ltb now (last + n * 1_000_000_000)
            then last + n * 1_000_000_000
            else now + n * 1_000_000_000
      ])
  next_interval_lem n now none h = refl
  next_interval_lem n now (some last) h =
      let word : as_64 n ≡ n = ground arith in rw (word, adds.later last n h, adds.later now n h)

  -- The next time of an interval schedule whose last run, if there is one, started at a time that can be read: without
  -- a run, now; else a whole interval after the last start where that is still to come, and after now
  -- where it is past.
  pub calculate_next_interval_fire_lem :
      (info : ScheduleInfo) (n : ℕ) (now : DateTime) (db : Db) (last : Option DateTime)
      → info.interval_seconds ≡ some n
      → 0 < n
      → n < 2 ^ 63
      → get_last_started x info.schedule_id db ≡ ok last
      → (t : DateTime) × (calculate_next_interval_fire x info now db ≡ ok (some t))
        × (now ≤ t)
        × ((l : DateTime) → last ≡ some l → (now < t) × (l + n * 1_000_000_000 ≤ t))
        × (last ≡ none → t ≡ now)
  unfolding calculate_next_interval_fire
  calculate_next_interval_fire_lem info n now db none column pos word started =
      (now, rw (column, started) (ground arith), omega arith, λ l h. cc, λ h. refl)
  calculate_next_interval_fire_lem info n now db (some l) column pos word started = (
    next_interval x n now (some l),
    rw (column, started) (ground arith),
    rw (next_interval_lem n now (some l) word) (ground arith),
    λ k h.
        let same : k ≡ l = cc in rw (next_interval_lem n now (some l) word) (ground (arith, same)),
    λ h. cc,
  )

module _ (x : External) (adds : AddsSeconds x) (seconds : WholeSeconds x) where
  checked :
      (n : ℕ) (last at : DateTime)
      → n < 2 ^ 63
      → last + n * 1_000_000_000 ≤ at
      → at < last + 2 ^ 63
      → not (i64_ltb (x.seconds_since last at) (as_64 n)) ≡ true
  checked n last at word due near =
      rw (seconds.since last at (omega (arith, due)) near) (ground (arith, word, due, near))

  -- At the time that was calculated for an interval schedule, or later, the test that process_schedule makes of its
  -- interval holds, whatever was written to the database in between, as long as the last start of a run of it reads
  -- the same: for an interval of n seconds, 0 < n < 2^63, and where the test is less than 2^63 nanoseconds
  -- (292 years) after that start, given what chrono documents of adding and counting seconds.
  pub calculate_next_interval_fire-check_interval :
      (info : ScheduleInfo) (n : ℕ) (now t at : DateTime) (db later : Db) (last : Option DateTime)
      → info.interval_seconds ≡ some n
      → 0 < n
      → n < 2 ^ 63
      → get_last_started x info.schedule_id db ≡ ok last
      → calculate_next_interval_fire x info now db ≡ ok (some t)
      → get_last_started x info.schedule_id later ≡ ok last
      → t ≤ at
      → ((l : DateTime) → last ≡ some l → at < l + 2 ^ 63)
      → check_interval x info.schedule_id n at later ≡ ok true
  unfolding check_interval get_last_started
  calculate_next_interval_fire-check_interval info n now t at db later last column pos word started
        next again due near =
      passed (max_started (select (is_run_of x info.schedule_id) later.workflows)) refl
    where
      read :
          (text : String) (r : Result DateTime DbError)
          → max_started (select (is_run_of x info.schedule_id) later.workflows) ≡ some text
          → parse_datetime x text ≡ r
          → check_interval x info.schedule_id n at later ≡ ok true
      read text (err d) e p =
          let impossible : ◌≡◌ {A = Result (Option DateTime) DbError} (err d) (ok last) =
            sym (rw (e, p) refl) ∙ again in
          cc
      read text (ok l) e p =
          let start : get_last_started x info.schedule_id later ≡ ok (some l) = rw (e, p) refl in
          let same : last ≡ some l = ok-injective (sym again ∙ start) in
          let lem =
            calculate_next_interval_fire_lem x adds info n now db last column pos word started in
          let time : t ≡ lem.0 = cc in
          rw (e, p)
            (ap ok (checked n l at word (omega (arith, (lem.3 l same).1, time, due)) (near l same)))

      passed :
          (o : Option String)
          → max_started (select (is_run_of x info.schedule_id) later.workflows) ≡ o
          → check_interval x info.schedule_id n at later ≡ ok true
      passed none e = rw e
      passed (some text) e = read text (parse_datetime x text) e refl
