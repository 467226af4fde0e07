-- ===== src/Server/Schedules/Log.antt =====
-- The statements of the calls of ScheduleService.
use khronos.Prelude.{String, refl}
use khronos.Db.Schema.{Db}
use khronos.External.{External, Now}
use khronos.Server.Log.Operations.{insert_schedule-IsStatement, update_schedule_spec-IsStatement}
use khronos.Server.Log.Statements.{schedule_deleted}
use khronos.Db.Schedules.{delete_schedule}
use khronos.Server.State.{Status, schedule_change}
use khronos.Server.Log.{IsLogged, log_rules, IsLogged-notify, Log-append, ran, untouched}
use khronos.Server.Schedules.{
  CreateScheduleRequest, UpdateScheduleRequest, create_schedule_call, update_schedule_call,
  delete_schedule_call,
}

ruleset writes = (insert_schedule-IsStatement, update_schedule_spec-IsStatement)

module _ (x : External) where
  pub create_schedule_call-IsLogged :
      (now : Now) (req : CreateScheduleRequest) → IsLogged x (create_schedule_call x now req)
  unfolding create_schedule_call
  create_schedule_call-IsLogged now req = search (log_rules, writes) depth 20

  pub update_schedule_call-IsLogged :
      (now : Now) (req : UpdateScheduleRequest) → IsLogged x (update_schedule_call x now req)
  unfolding update_schedule_call
  update_schedule_call-IsLogged now req = search (log_rules, writes) depth 20

  pub delete_schedule_call-IsLogged :
      (id namespace : String) → IsLogged x (delete_schedule_call id namespace)
  unfolding delete_schedule_call
  delete_schedule_call-IsLogged id namespace = record {
    at = λ s.
        let deleted : Db = (delete_schedule id namespace s.db).1 in
        Log-append (ran s.db deleted untouched (schedule_deleted id namespace refl))
          ((IsLogged-notify {x = x} {E = Status} schedule_change).at (record s { db = deleted }));
  }
