-- ===== src/Server/Schedules/Namespaces.antt =====
-- Updates that name a namespace which is not the schedule's.
use khronos.Prelude.{String, true, false, Option, some, ◌≡◌}
use khronos.Prelude.Result.{ok}
use khronos.Core.Schedule.{ScheduleSpec, Schedule}
use khronos.External.{External, Now}
use khronos.Table.{exists, update-none}
use khronos.Db.Schedules.{
  get_schedule, update_schedule_spec, of_namespace, cron_column, set_schedule,
}
use khronos.Server.State.{Server, schedule_change}
use khronos.Server.Worker.Attempts.{sent}
use khronos.Server.Schedules.{SpecMessage, UpdateScheduleRequest, spec_of, update_schedule_call}

module _ (x : External) where
  -- An update of a schedule that is there, with a namespace in which it is not, answers success and tells the
  -- engine of a change, and leaves the database as it was.
  pub update_schedule_call-unnoticed :
      (now : Now) (req : UpdateScheduleRequest) (s : Server) (message : SpecMessage)
      (schedule : Schedule) (spec : ScheduleSpec) (cron_expressions : Option String)
      (args timeouts : String)
      → req.spec ≡ some message
      → spec_of message ≡ ok spec
      → get_schedule x req.schedule_id s.db ≡ ok (some schedule)
      → cron_column x spec ≡ ok cron_expressions
      → x.args_to_string schedule.action.args ≡ some args
      → x.timeouts_to_string schedule.action.timeouts ≡ some timeouts
      → exists (of_namespace req.schedule_id req.namespace) s.db.schedules ≡ false
      → update_schedule_call x now req s ≡ (ok true, sent schedule_change s)
  unfolding update_schedule_call update_schedule_spec
  update_schedule_call-unnoticed now req s message schedule spec c args timeouts e f g h a t
        none_there =
      rw (
        e,
        g,
        f,
        h,
        a,
        t,
        update-none (of_namespace req.schedule_id req.namespace)
            (set_schedule x now.sql (record schedule { spec = spec; updated_at = now.utc }) c args
              timeouts)
            s.db.schedules none_there,
      )
