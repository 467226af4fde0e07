-- ===== src/Server/Scheduler/Log.antt =====
-- The statements of a schedule that fires, also of one that fails halfway.
use khronos.Prelude.{
  ℕ, ◌+◌, Bool, true, false, Option, none, some, String, List, [], ◌∷◌, All, refl, ◌==◌, inl, inr,
}
use khronos.Core.Workflow.{ActivityStep}
use khronos.External.{External, Now}
use khronos.Db.Schema.{ScheduleRow}
use khronos.Server.Log.Operations.{
  insert_workflow-IsStatement, insert_workflow_step-IsStatement, cancel_workflow-IsStatement,
}
use khronos.Server.Log.Steps.{HasBuiltIn, All-if, cron_job_steps-HasBuiltIn, job_step_args-StepArgs}
use khronos.Server.Log.{IsLogged, log_rules, IsLogged-pure, IsLogged-bind, IsLogged-db_write}
use khronos.Server.Definitions.{Chars, cron_job_steps, normalize}
use khronos.Server.Scheduler.Times.{ScheduleInfo, info_of}
use khronos.Server.Scheduler.Start.{
  Firing, default_steps, get_workflow_definition, scheduled_step, insert_steps,
  start_schedule_workflow,
}
use khronos.Server.Scheduler.Process.{
  cancel_all, terminate_existing, terminate_if, apply_policy, process_info, process_row,
  process_schedule,
}
use khronos.Table.{find}
use khronos.Db.Schema.{has_schedule}

module _ (x : External) where
  cancel_all-IsLogged : (now : Now) (ids : List String) → IsLogged x (cancel_all now ids)
  unfolding cancel_all
  cancel_all-IsLogged now [] = IsLogged-pure _
  cancel_all-IsLogged now (run_id ∷ ids) =
      IsLogged-bind _ _ (IsLogged-db_write _ _ (cancel_workflow-IsStatement x now.sql run_id))
        (λ _. cancel_all-IsLogged now ids)

  job_steps-HasBuiltIn :
      (chars : Chars) (name : String) → All HasBuiltIn (get_workflow_definition chars name)
  unfolding get_workflow_definition
  job_steps-HasBuiltIn chars name =
      All-if HasBuiltIn (normalize chars true name == "cron_job_workflow") cron_job_steps
        default_steps cron_job_steps-HasBuiltIn
        (inr refl, (inl refl, (inr refl, (inl refl, (inl refl, tt)))))

  insert_steps-IsLogged :
      (f : Firing) (job_id : String) (index : ℕ) (steps : List ActivityStep)
      → All HasBuiltIn steps
      → IsLogged x (insert_steps x f job_id index steps)
  unfolding insert_steps
  insert_steps-IsLogged f job_id index [] built = IsLogged-pure _
  insert_steps-IsLogged f job_id index (step_def ∷ steps) built =
      IsLogged-bind _ _
        (IsLogged-db_write _ _ (
          insert_workflow_step-IsStatement x f.now.sql (scheduled_step x f index job_id step_def)
            (record {
              policy = built.0;
              args = job_step_args-StepArgs x job_id;
              is_pending = refl;
              no_result_yet = refl;
              no_retry = refl;
            })))
        (λ _. insert_steps-IsLogged f job_id (index + 1) steps built.1)

  start_schedule_workflow-IsLogged :
      (chars : Chars) (f : Firing) (id : String) (info : ScheduleInfo)
      → IsLogged x (start_schedule_workflow x chars f id info)
  unfolding start_schedule_workflow
  start_schedule_workflow-IsLogged chars f id info =
      search (log_rules, insert_steps-IsLogged, insert_workflow-IsStatement, job_steps-HasBuiltIn)

  terminate_if-IsLogged :
      (b : Bool) (now : Now) (id : String) → IsLogged x (terminate_if x b now id)
  unfolding terminate_existing
  terminate_if-IsLogged true now id = search (log_rules, cancel_all-IsLogged)
  terminate_if-IsLogged false now id = IsLogged-pure _

  process_info-IsLogged :
      (chars : Chars) (f : Firing) (id : String) (info : ScheduleInfo)
      → IsLogged x (process_info x chars f id info)
  unfolding process_info apply_policy
  process_info-IsLogged chars f id info =
      search (log_rules, terminate_if-IsLogged, start_schedule_workflow-IsLogged) depth 20

  process_row-IsLogged :
      (chars : Chars) (f : Firing) (id : String) (found : Option ScheduleRow)
      → IsLogged x (process_row x chars f id found)
  process_row-IsLogged chars f id none = IsLogged-pure _
  process_row-IsLogged chars f id (some r) = process_info-IsLogged chars f id (info_of x r)

  pub process_schedule-IsLogged :
      (chars : Chars) (f : Firing) (id : String) → IsLogged x (process_schedule x chars f id)
  unfolding process_schedule
  process_schedule-IsLogged chars f id = record {
    at = λ s. (process_row-IsLogged chars f id (find (has_schedule id) s.db.schedules)).at s;
  }
