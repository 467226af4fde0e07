-- ===== src/Server/Schedules.antt =====
-- ScheduleService of crates/server/src/grpc.rs.
pub mod Log
pub mod Namespaces
use Prim.Native.String.{◌++◌}
use khronos.Prelude.{
  ℕ, String, Bool, true, false, Option, none, some, List, [], ◌==◌, ◌||◌, ltb, unwrap_or, map,
  if◌then◌else◌,
}
use khronos.Prelude.Result.{Result, ok, err, ok_or}
use khronos.Prelude.Exec.{Exec, pure, lift, ◌>>=◌, ◌>>◌}
use khronos.Values.{Args}
use khronos.Core.Schedule.{
  ScheduleSpec, cron, interval, OverlapPolicy, skip, buffer, terminate_existing, Timeouts,
  WorkflowAction, Schedule,
}
use khronos.External.{External, Now}
use khronos.Db.Schedules.{
  insert_schedule, update_schedule_spec, delete_schedule, get_schedule, list_schedules, spec_type,
  overlap_policy,
}
use khronos.Server.State.{
  Server, Status, internal, invalid_argument, not_found, schedule_change, db_write, db_read, notify,
}
use khronos.Server.Workflows.{TimeoutsMessage, timeouts_of, or_default, insert_all}

-- the message ScheduleSpec, with the seconds of its IntervalSpec
pub record SpecMessage : Type 0 where
  pub spec_type : String
  pub cron_expressions : List String
  pub interval_spec : Option ℕ

pub record ActionMessage : Type 0 where
  pub workflow_name : String
  pub args : Args
  pub task_queue : String
  pub id : String
  pub timeouts : Option TimeoutsMessage

pub record CreateScheduleRequest : Type 0 where
  pub schedule_id : String
  pub namespace : String
  pub spec : Option SpecMessage
  pub action : Option ActionMessage
  pub policy : Option String

pub record UpdateScheduleRequest : Type 0 where
  pub schedule_id : String
  pub namespace : String
  pub spec : Option SpecMessage

pub record ScheduleInfo : Type 0 where
  pub schedule_id : String
  pub namespace : String
  pub spec : SpecMessage
  pub action : ActionMessage
  pub policy : String
  pub created_at : String

abbrev pub interval_of : Option ℕ → Result ScheduleSpec Status
interval_of none = err (invalid_argument "interval seconds required for interval spec")
interval_of (some seconds) = ok (interval seconds)

abbrev pub spec_of : SpecMessage → Result ScheduleSpec Status
spec_of spec =
    if spec.spec_type == "cron"
    then ok (cron spec.cron_expressions)
    else if spec.spec_type == "interval"
    then interval_of spec.interval_spec
    else err (invalid_argument ("unknown spec_type: " ++ spec.spec_type))

abbrev pub policy_of_text : String → Result OverlapPolicy Status
policy_of_text policy =
    if policy == "skip" || policy == ""
    then ok skip
    else if policy == "buffer"
    then ok (buffer 1)
    else if policy == "terminate"
    then ok terminate_existing
    else err (invalid_argument ("unknown policy: " ++ policy))

abbrev pub action_of : ActionMessage → WorkflowAction
action_of action = record {
  workflow_name = action.workflow_name;
  args = insert_all action.args [];
  task_queue = action.task_queue;
  id = action.id;
  timeouts = timeouts_of action.timeouts;
}

abbrev pub schedule_spec_to_proto : ScheduleSpec → SpecMessage
schedule_spec_to_proto (cron exprs) = record {
  spec_type = "cron";
  cron_expressions = exprs;
  interval_spec = none;
}
schedule_spec_to_proto (interval seconds) = record {
  spec_type = "interval";
  cron_expressions = [];
  interval_spec = some seconds;
}

abbrev pub workflow_action_to_proto : WorkflowAction → ActionMessage
workflow_action_to_proto action = record {
  workflow_name = action.workflow_name;
  args = action.args;
  task_queue = action.task_queue;
  id = action.id;
  timeouts = some (record {
    execution_timeout_secs = unwrap_or action.timeouts.execution_timeout_secs 0;
    run_timeout_secs = unwrap_or action.timeouts.run_timeout_secs 0;
    task_timeout_secs = unwrap_or action.timeouts.task_timeout_secs 0;
  });
}

abbrev pub overlap_policy_to_proto : OverlapPolicy → String
overlap_policy_to_proto OverlapPolicy.skip = "skip"
overlap_policy_to_proto (OverlapPolicy.buffer n) = "buffer"
overlap_policy_to_proto OverlapPolicy.terminate_existing = "terminate"

module _ (x : External) where
  unfoldable pub create_schedule_call : Now → CreateScheduleRequest → Exec Server Status String
  create_schedule_call now req = do
    spec ← lift (ok_or req.spec (invalid_argument "spec is required"))
    action ← lift (ok_or req.action (invalid_argument "action is required"))
    schedule_spec ← lift (spec_of spec)
    policy ← lift (policy_of_text (unwrap_or req.policy ""))
    db_write (internal "Failed to create schedule") (
        insert_schedule x now.sql (record {
          schedule_id = req.schedule_id;
          namespace = req.namespace;
          spec = schedule_spec;
          action = action_of action;
          policy = policy;
          created_at = now.utc;
          updated_at = now.utc;
        }))
    notify schedule_change
    pure req.schedule_id

  unfoldable pub update_schedule_call : Now → UpdateScheduleRequest → Exec Server Status Bool
  update_schedule_call now req = do
    spec ← lift (ok_or req.spec (invalid_argument "spec is required"))
    found ← db_read (internal "Failed to get schedule") (get_schedule x req.schedule_id)
    existing ← lift (ok_or found (not_found "Schedule not found"))
    new_spec ← lift (spec_of spec)
    db_write (internal "Failed to update schedule") (
        update_schedule_spec x now.sql req.schedule_id req.namespace
          (record existing { spec = new_spec; updated_at = now.utc }))
    notify schedule_change
    pure true

  abbrev pub schedule_info : Schedule → ScheduleInfo
  schedule_info s = record {
    schedule_id = s.schedule_id;
    namespace = s.namespace;
    spec = schedule_spec_to_proto s.spec;
    action = workflow_action_to_proto s.action;
    policy = overlap_policy_to_proto s.policy;
    created_at = x.format s.created_at;
  }

  unfoldable pub list_schedules_call : String → Exec Server Status (List ScheduleInfo)
  list_schedules_call namespace = do
    schedules ←
        db_read (internal "Failed to list schedules") (list_schedules x (or_default namespace))
    pure (map schedule_info schedules)

-- whether a row was deleted; the engine is told in any case
unfoldable pub delete_schedule_call : String → String → Exec Server Status Bool
delete_schedule_call schedule_id namespace s =
    let (rows, db) = delete_schedule schedule_id namespace s.db in
    (notify schedule_change >> pure (ltb 0 rows)) (record s { db = db })
