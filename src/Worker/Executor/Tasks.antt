-- ===== src/Worker/Executor/Tasks.antt =====
-- A task from the server to the worker and back.
use khronos.Prelude.{
  String, ◌≡◌, refl, ◌+◌, false, none, some, ◌<◌, ◌^◌, ltb, eq_refl, if◌then◌else◌,
}
use khronos.Prelude.Result.{ok}
use khronos.Values.{Value, Uuid, as_u32, as_64}
use khronos.Core.Activity.{RetryPolicy}
use khronos.Core.Workflow.{WorkflowStepInstance}
use khronos.External.{External, Now}
use khronos.Table.{find, exists, find-append_row, find-update_same}
use khronos.Db.Schema.{StepRow, ActivityRow, has_step, has_activity}
use khronos.Db.Activities.{set_step_state, set_activity_state}
use khronos.Db.Activities.Laws.{attempt_row}
use khronos.Db.States.{workflow_state_to_str, activity_state_to_str}
use khronos.Db.Dates.{format_datetime}
use khronos.Server.State.{Server, step_completed}
use khronos.Server.Completion.{sent-db}
use khronos.Server.Worker.Handlers.{hand_out, task_of, parse_result}
use khronos.Server.Worker.Outcomes.{handed_out}
use khronos.Server.Worker.Success.{executed, hand_out-report_activity_result}
use khronos.Server.Worker.Attempts.{hand_out-report_activity_failure}
use khronos.Worker.Handlers.{
  Handler, Command, Output, ActivityRegistry, get, run_handler, unregistered,
}
use khronos.Worker.Executor.{result_text, execute, perform}

module _ (x : External) (output : Command → Output) (trim : String → String)
    (registry : ActivityRegistry) where
  -- A task whose handler succeeds, given out, executed and reported, leaves its step and its activity completed,
  -- the step with the text of the handler's output as result, given that the activity's id is new and that the
  -- text which the worker sends is read back as a JSON value.
  pub hand_out-execute :
      (now later : Now) (id : Uuid) (step : WorkflowStepInstance) (s : Server) (r : StepRow)
      (handler : Handler) (out text : String) (v : Value)
      → exists (has_activity (x.uuid_to_string id)) s.db.activities ≡ false
      → find (has_step (x.uuid_to_string step.id)) s.db.workflow_steps ≡ some r
      → get step.activity_name registry ≡ some handler
      → run_handler output handler step.activity_name ≡ ok out
      → parse_result x (result_text x trim out) ≡ ok v
      → x.value_to_string v ≡ some text
      → (r' : StepRow) × (a' : ActivityRow) × (find
            (has_step (x.uuid_to_string step.id))
            (perform x later
              (execute x output trim registry (task_of x id step))
              (hand_out x now id step s).1).1.db.workflow_steps
          ≡ some r')
        × (find
              (has_activity (x.uuid_to_string id))
              (perform x later
                (execute x output trim registry (task_of x id step))
                (hand_out x now id step s).1).1.db.activities
            ≡ some a')
        × (r'.state ≡ "completed")
        × (r'.result_json ≡ some text)
        × (a'.state ≡ "completed")
  unfolding execute workflow_state_to_str activity_state_to_str
  hand_out-execute now later id step s r handler out text v fresh f g done parsed written =
      let step_id = x.uuid_to_string step.id in
      let id_text = x.uuid_to_string id in
      let attempt = as_u32 (step.attempt + 1) in
      let set = set_step_state "running" (some (as_64 attempt)) none (format_datetime x none) in
      let end = set_step_state "completed" none (some text) (format_datetime x none) in
      let a = attempt_row now.sql id_text step_id attempt in
      let close = set_activity_state later.sql "completed" (some text) none in
      let t = record s { db = executed x now later id step text s.db } in
      let reported =
        hand_out-report_activity_result x now later id step (result_text x trim out) s r v text
          fresh f parsed written in
      let running : find (has_step step_id) (handed_out x now id step s.db).workflow_steps
          ≡ some (set r) =
        find-update_same (has_step step_id) set (λ r. refl) s.db.workflow_steps {r = r} f in
      let started : find (has_activity id_text) (handed_out x now id step s.db).activities
          ≡ some a =
        rw (find-append_row (has_activity id_text) a s.db.activities, fresh, eq_refl id_text) in
      (
        end (set r),
        close a,
        rw (g, done, reported, sent-db x (step_completed r.workflow_run_id) t)
            (find-update_same (has_step step_id) end (λ r. refl)
              (handed_out x now id step s.db).workflow_steps {r = set r} running),
        rw (g, done, reported, sent-db x (step_completed r.workflow_run_id) t)
            (find-update_same (has_activity id_text) close (λ r. refl)
              (handed_out x now id step s.db).activities {r = a} started),
        refl,
        refl,
        refl,
      )

  -- A task whose activity has no handler, given out, executed and reported, leaves its step two attempts on: pending
  -- if that is below the maximum of the step's policy, else failed.
  pub hand_out-unregistered :
      (now later : Now) (id : Uuid) (step : WorkflowStepInstance) (s : Server) (r : StepRow)
      (policy : RetryPolicy)
      → get step.activity_name registry ≡ none
      → exists (has_activity (x.uuid_to_string id)) s.db.activities ≡ false
      → find (has_step (x.uuid_to_string step.id)) s.db.workflow_steps ≡ some r
      → x.retry_from_str r.retry_policy_json ≡ some policy
      → step.attempt + 2 < 2 ^ 32
      → (r' : StepRow) × (find
            (has_step (x.uuid_to_string step.id))
            (perform x later
              (execute x output trim registry (task_of x id step))
              (hand_out x now id step s).1).1.db.workflow_steps
          ≡ some r')
        × (r'.attempt ≡ step.attempt + 2)
        × (r'.state
            ≡ (if ltb (step.attempt + 2) policy.maximum_attempts then "pending" else "failed"))
  unfolding execute
  hand_out-unregistered now later id step s r policy none_for fresh f g small = rw none_for (
      hand_out-report_activity_failure x now later id step (unregistered step.activity_name) s r
        policy fresh f g small)
