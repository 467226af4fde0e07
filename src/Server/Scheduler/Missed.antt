-- ===== src/Server/Scheduler/Missed.antt =====
-- The test of a cron schedule.
use khronos.Prelude.{
  String, false, Option, some, List, [], ◌∷◌, ◌≡◌, refl, ◌≤◌, ◌<◌, ◌+◌, ◌-◌, ◌/◌, ◌^◌, arith, All,
  Option-cases, inl, inr,
}
use khronos.Prelude.Result.{ok}
use khronos.Values.{DateTime}
use khronos.External.{External}
use khronos.Table.{find}
use khronos.Db.Schema.{ScheduleRow, has_schedule}
use khronos.Server.State.{Server}
use khronos.Server.Definitions.{Chars}
use khronos.Server.Scheduler.Times.{check_cron_match, within_a_second}
use khronos.Server.Scheduler.Start.{Firing}
use khronos.Server.Scheduler.Process.{process_schedule, process_info}

-- `num_seconds` of a difference forward in time, as chrono documents; 2^63 nanoseconds are 292 years
pub record WholeSeconds (x : External) : Type 0 where
  pub since :
      (from t : DateTime)
      → from ≤ t
      → t < from + 2 ^ 63
      → x.seconds_since from t ≡ (t - from) / 1_000_000_000

-- the next time of an expression is two seconds ahead or more, and less than 292 years
pub record FarAhead (x : External) (now : DateTime) (expr : String) : Type 0 where
  pub ahead :
      (upcoming : DateTime → Option DateTime) (t : DateTime)
      → x.cron_from_str expr ≡ some upcoming
      → upcoming now ≡ some t
      → (now + 2_000_000_000 ≤ t) × (t < now + 2 ^ 63)

module _ (x : External) (seconds : WholeSeconds x) where
  far_off :
      (now t : DateTime)
      → now + 2_000_000_000 ≤ t
      → t < now + 2 ^ 63
      → within_a_second x now t ≡ false
  far_off now t far near = rw (seconds.since now t (omega (arith, far)) near) (ground arith)

  pub check_cron_match-misses :
      (now : DateTime) (expressions : List String)
      → All (FarAhead x now) expressions
      → check_cron_match x expressions now ≡ false
  unfolding check_cron_match
  check_cron_match-misses now [] far = refl
  check_cron_match-misses now (expr ∷ expressions) far =
      elim (Option-cases (x.cron_from_str expr)) [
        | inl e ↦ rw (e, check_cron_match-misses now expressions far.1)
        | inr (upcoming, e) ↦ elim (Option-cases (upcoming now)) [
          | inl u ↦ rw (e, u, check_cron_match-misses now expressions far.1)
          | inr (t, u) ↦
              let ahead = far.0.ahead upcoming t e u in
              rw
                (e, u, far_off now t ahead.0 ahead.1, check_cron_match-misses now expressions far.1)
        ]
      ]

  -- Where each expression of a cron schedule that can be read has its next time, counted from the clock reading of
  -- process_schedule, two seconds ahead or more and less than 2^63 nanoseconds (292 years) ahead, or has none, the
  -- call starts no run and changes nothing, whatever the schedule's policy and the runs that there are.
  pub process_schedule-missed :
      (chars : Chars) (f : Firing) (id : String) (s : Server) (r : ScheduleRow) (text : String)
      (expressions : List String)
      → find (has_schedule id) s.db.schedules ≡ some r
      → r.spec_type ≡ "cron"
      → r.cron_expressions ≡ some text
      → x.strings_from_str text ≡ some expressions
      → All (FarAhead x f.now.utc) expressions
      → process_schedule x chars f id s ≡ (ok tt, s)
  unfolding process_schedule process_info
  process_schedule-missed chars f id s r text expressions found cron column parsed far =
      rw (found, cron, column, parsed, check_cron_match-misses f.now.utc expressions far)
