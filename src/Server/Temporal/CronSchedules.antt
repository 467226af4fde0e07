-- ===== src/Server/Temporal/CronSchedules.antt =====
-- A schedule with cron expressions that is created through the Temporal-compatible call.
use khronos.Prelude.{
  ℕ, String, true, false, Option, none, some, List, ◌∷◌, ◌≡◌, refl, eq_refl, unwrap_or, Bool-cases,
  inl, inr, eqb, ◌||◌, ◌∙◌,
}
use mathlib.Core.Option
use khronos.Prelude.Result.{ok}
use khronos.External.{External, Now}
use khronos.Table.{find, exists, append_row, find-append_row}
use khronos.Db.Schema.{has_schedule, insert_schedule_row, overlap_policy_check}
use khronos.Table.Keys.{exists-append_row}
use khronos.Server.State.{Server}
use khronos.Server.Definitions.{Chars}
use khronos.Server.Scheduler.Start.{Firing}
use khronos.Server.Scheduler.Process.{process_schedule, process_info}
use khronos.Server.Temporal.Schedules.{
  StartAction, ScheduleRequest, join, overlap_text, schedule_row_of, create_schedule,
}

overlap_checks :
    (policy : Option ℕ)
    → overlap_policy_check (unwrap_or (Option.map overlap_text policy) "skip") ≡ true
overlap_checks none = refl
overlap_checks (some n) = elim (Bool-cases (eqb n 2 || eqb n 3)) [
  | inl b ↦ rw b refl
  | inr b ↦ elim (Bool-cases (eqb n 4 || eqb n 5)) [
    | inl t ↦ rw (b, t) refl
    | inr t ↦ rw (b, t) refl
  ]
]

module _ (x : External) where
  -- the server with the row of the request
  abbrev pub with_schedule :
      String → ScheduleRequest → Option ℕ → String → StartAction → Server → Server
  with_schedule now req policy crons action s = record s {
    db = record s.db {
      schedules =
          append_row (schedule_row_of now req policy ("cron", crons, 0) action) s.db.schedules;
    };
  }

  created :
      (now : Now) (req : ScheduleRequest) (expr : String) (exprs : List String)
      (intervals : List (Option ℕ)) (action : StartAction) (policy : Option ℕ) (s : Server)
      → req.schedule
        ≡ some (record {
          spec = some (record { cron_string = expr ∷ exprs; interval = intervals });
          action = some (some action);
          overlap_policy = policy;
        })
      → exists (has_schedule req.schedule_id) s.db.schedules ≡ false
      → create_schedule now req s
        ≡ (ok tt, with_schedule now.sql req policy (join "," (expr ∷ exprs)) action s)
  unfolding create_schedule insert_schedule_row
  created now req expr exprs intervals action policy s e fresh =
      rw (e, fresh, overlap_checks policy)

  -- A cron schedule that is created under a new id through the Temporal-compatible call, with expressions whose text,
  -- separated by commas, is not read as a JSON list of texts: it is there after the call, and wherever its row reads
  -- as the call left it, whatever else has changed, process_schedule succeeds, starts no run and changes nothing.
  pub create_schedule-process_schedule :
      (now : Now) (req : ScheduleRequest) (expr : String) (exprs : List String)
      (intervals : List (Option ℕ)) (action : StartAction) (policy : Option ℕ) (s u : Server)
      (chars : Chars) (f : Firing)
      → req.schedule
        ≡ some (record {
          spec = some (record { cron_string = expr ∷ exprs; interval = intervals });
          action = some (some action);
          overlap_policy = policy;
        })
      → exists (has_schedule req.schedule_id) s.db.schedules ≡ false
      → x.strings_from_str (join "," (expr ∷ exprs)) ≡ none
      → find (has_schedule req.schedule_id) u.db.schedules
        ≡ find (has_schedule req.schedule_id) (create_schedule now req s).1.db.schedules
      → ((create_schedule now req s).0 ≡ ok tt)
        × (exists (has_schedule req.schedule_id) (create_schedule now req s).1.db.schedules ≡ true)
        × (process_schedule x chars f req.schedule_id u ≡ (ok tt, u))
  unfolding process_schedule process_info
  create_schedule-process_schedule now req expr exprs intervals action policy s u chars f e fresh
        lost same =
      let row = schedule_row_of now.sql req policy ("cron", join "," (expr ∷ exprs), 0) action in
      let made = created now req expr exprs intervals action policy s e fresh in
      let kept : find (has_schedule req.schedule_id) u.db.schedules ≡ some row =
        same
        ∙ rw made (
            rw
              (
                find-append_row (has_schedule req.schedule_id) row s.db.schedules,
                fresh,
                eq_refl req.schedule_id,
              )
              refl) in
      (
        rw made refl,
        rw made (
            rw
              (
                exists-append_row (has_schedule req.schedule_id) row s.db.schedules,
                fresh,
                eq_refl req.schedule_id,
              )
              refl),
        rw (kept, lost) refl,
      )
