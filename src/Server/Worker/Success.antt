-- ===== src/Server/Worker/Success.antt =====
-- A task that is handed out and then reported as done.
use khronos.Prelude.{String, ◌≡◌, refl, ◌+◌, false, true, some, none, eq_refl}
use khronos.Prelude.Result.{ok}
use khronos.Values.{Value, Uuid, as_u32, as_64}
use khronos.Core.Activity.{ActivityState}
use khronos.Core.Workflow.{WorkflowState, WorkflowStepInstance}
use khronos.External.{External, Now}
use khronos.Table.{find, exists, find-append_row, find-update_same}
use khronos.Table.Keys.{find-exists}
use khronos.Db.Schema.{StepRow, Db, has_step, has_activity}
use khronos.Db.Activities.{set_step_state}
use khronos.Db.Activities.Laws.{attempt_row, with_step, with_activity}
use khronos.Db.States.{workflow_state_to_str, activity_state_to_str}
use khronos.Db.Dates.{format_datetime}
use khronos.Server.State.{Server, step_completed}
use khronos.Server.Worker.Handlers.{hand_out, parse_result, report_activity_result}
use khronos.Server.Worker.Outcomes.{handed_out, hand_out_lem}
use khronos.Server.Worker.Attempts.{sent, report_activity_result_lem}

module _ (x : External) where
  -- the tables after a task is handed out and its result reported
  abbrev pub executed : Now → Now → Uuid → WorkflowStepInstance → String → Db → Db
  executed now later id step text db =
      with_step x (x.uuid_to_string step.id) WorkflowState.completed none none
        (with_activity x later.sql (x.uuid_to_string id) ActivityState.completed none
          (handed_out x now id step db) (some text))
        (some text)

  pub hand_out-report_activity_result :
      (now later : Now) (id : Uuid) (step : WorkflowStepInstance) (result : String) (s : Server)
      (r : StepRow) (v : Value) (text : String)
      → exists (has_activity (x.uuid_to_string id)) s.db.activities ≡ false
      → find (has_step (x.uuid_to_string step.id)) s.db.workflow_steps ≡ some r
      → parse_result x result ≡ ok v
      → x.value_to_string v ≡ some text
      → report_activity_result x later (x.uuid_to_string id) result (hand_out x now id step s).1 ≡ (
        ok true,
        sent
            (step_completed r.workflow_run_id)
            (record s { db = executed now later id step text s.db }),
      )
  unfolding workflow_state_to_str activity_state_to_str
  hand_out-report_activity_result now later id step result s r v text fresh f parsed written =
      let step_id = x.uuid_to_string step.id in
      let id_text = x.uuid_to_string id in
      let attempt = as_u32 (step.attempt + 1) in
      let t : Server = record s { db = handed_out x now id step s.db } in
      let a = attempt_row now.sql id_text step_id attempt in
      let set = set_step_state "running" (some (as_64 attempt)) none (format_datetime x none) in
      let found : find (has_step step_id) t.db.workflow_steps ≡ some (set r) =
        find-update_same (has_step step_id) set (λ r. refl) s.db.workflow_steps {r = r} f in
      let started : find (has_activity id_text) t.db.activities ≡ some a =
        rw (find-append_row (has_activity id_text) a s.db.activities, fresh, eq_refl id_text) in
      rw
        (hand_out_lem x now id step s fresh
          (find-exists (has_step step_id) s.db.workflow_steps {r = r} f))
        (report_activity_result_lem x later id_text result t v text a (set r) parsed written started
          found)
