-- ===== src/Server/Worker/Outcomes.antt =====
-- What the worker's calls leave in the database.
use khronos.Prelude.{String, ◌≡◌, refl, true, false, Option, none, some, ◌+◌, ltb, if◌then◌else◌}
use khronos.Prelude.Result.{ok, err}
use khronos.Values.{Uuid, as_u32, as_64, sub_u32}
use khronos.Core.Activity.{ActivityState, RetryPolicy}
use khronos.Core.Workflow.{WorkflowState, WorkflowStepInstance}
use khronos.External.{External, Now}
use khronos.Table.{find, exists, append_row}
use khronos.Table.Keys.{exists-update}
use khronos.Db.Error.{no_rows, json}
use khronos.Db.Schema.{StepRow, ActivityRow, Db, has_step, has_activity}
use khronos.Db.Workflows.Laws.{with_state, update_workflow_state_lem}
use khronos.Db.Activities.Laws.{
  with_step, with_activity, update_step_state_lem, update_activity_state_lem, attempt_row,
  insert_activity_attempt_lem,
}
use khronos.Prelude.{Bool-cases, inl, inr}
use khronos.Db.States.{workflow_state_to_str}
use khronos.Db.Dates.{format_datetime}
use khronos.Db.Activities.{set_step_state}
use khronos.Server.State.{Server, internal, find_activity, find_step}
use khronos.Server.Worker.Handlers.{
  hand_out, task_of, retry_or_fail, report_activity_failure, backoff_from,
}

module _ (x : External) where
  -- the tables after a task is handed out
  abbrev pub handed_out : Now → Uuid → WorkflowStepInstance → Db → Db
  handed_out now id step db =
      let step_id = x.uuid_to_string step.id in
      let attempt = as_u32 (step.attempt + 1) in
      let started = with_step x step_id WorkflowState.running (some attempt) none db none in
      let inserted = record started {
        activities =
            append_row (attempt_row now.sql (x.uuid_to_string id) step_id attempt) db.activities;
      } in
      with_state x (x.uuid_to_string step.workflow_run_id) WorkflowState.running (some now.utc)
        inserted none

  pub hand_out_lem :
      (now : Now) (id : Uuid) (step : WorkflowStepInstance) (s : Server)
      → exists (has_activity (x.uuid_to_string id)) s.db.activities ≡ false
      → exists (has_step (x.uuid_to_string step.id)) s.db.workflow_steps ≡ true
      → hand_out x now id step s ≡ (
        ok (record { task = some (task_of x id step); has_task = true }),
        record s { db = handed_out now id step s.db },
      )
  unfolding hand_out
  hand_out_lem now id step s fresh there =
      let step_id = x.uuid_to_string step.id in
      let attempt = as_u32 (step.attempt + 1) in
      let started = with_step x step_id WorkflowState.running (some attempt) none s.db none in
      let set =
        set_step_state (workflow_state_to_str WorkflowState.running) (some (as_64 attempt)) none
          (format_datetime x none) in
      rw (
        update_step_state_lem x step_id WorkflowState.running (some attempt) none none s.db
            (λ e. cc),
        insert_activity_attempt_lem now.sql (x.uuid_to_string id) step_id attempt started fresh (
            rw (
              exists-update (has_step step_id) (has_step step_id) set (λ r. refl)
                  s.db.workflow_steps,
              there,
            )),
        update_workflow_state_lem x (x.uuid_to_string step.workflow_run_id) WorkflowState.running
            none (some now.utc)
            (record started {
              activities =
                  append_row (attempt_row now.sql (x.uuid_to_string id) step_id attempt)
                    s.db.activities;
            }),
      )

  -- the tables after an attempt is reported as failed
  abbrev pub failed_with : Now → String → String → ActivityRow → RetryPolicy → Db → Db
  failed_with now id error_message activity policy db =
      let attempt = as_u32 (as_u32 activity.attempt + 1) in
      let ended = with_activity x now.sql id ActivityState.failed (some error_message) db none in
      if ltb attempt policy.maximum_attempts
      then with_step x activity.step_id WorkflowState.pending (some attempt)
          (some (backoff_from x now.utc policy (sub_u32 attempt 1))) ended none
      else with_step x activity.step_id WorkflowState.failed (some attempt) none ended none

  -- what a report of a failure does, by the policy, the step and the activity that it finds
  abbrev pub PolicyOutcome :
      Now → String → String → Server → ActivityRow → Option RetryPolicy → Type 0
  PolicyOutcome now id error_message s a none =
      report_activity_failure x now id error_message s
      ≡ (err (internal "Invalid retry policy JSON" json), s)
  PolicyOutcome now id error_message s a (some policy) =
      report_activity_failure x now id error_message s
      ≡ (ok true, record s { db = failed_with now id error_message a policy s.db })

  abbrev StepOutcome : Now → String → String → Server → ActivityRow → Option StepRow → Type 0
  StepOutcome now id error_message s a none =
      report_activity_failure x now id error_message s
      ≡ (err (internal "Failed to get retry policy" no_rows), s)
  StepOutcome now id error_message s a (some r) =
      PolicyOutcome now id error_message s a (x.retry_from_str r.retry_policy_json)

  abbrev pub FailureOutcome : Now → String → String → Server → Option ActivityRow → Type 0
  FailureOutcome now id error_message s none =
      report_activity_failure x now id error_message s
      ≡ (err (internal "Failed to find activity" no_rows), s)
  FailureOutcome now id error_message s (some a) =
      StepOutcome now id error_message s a (find (has_step a.step_id) s.db.workflow_steps)

  retry_or_fail_lem :
      (now : Now) (a : ActivityRow) (policy : RetryPolicy) (id error_message : String) (s : Server)
      → retry_or_fail x now.utc a.step_id policy (as_u32 (as_u32 a.attempt + 1)) (record s {
        db = with_activity x now.sql id ActivityState.failed (some error_message) s.db none;
      })
        ≡ (ok tt, record s { db = failed_with now id error_message a policy s.db })
  unfolding retry_or_fail
  retry_or_fail_lem now a policy id error_message s =
      let attempt = as_u32 (as_u32 a.attempt + 1) in
      let ended = with_activity x now.sql id ActivityState.failed (some error_message) s.db none in
      elim (Bool-cases (ltb attempt policy.maximum_attempts)) [
        | inl e ↦ rw (
          e,
          update_step_state_lem x a.step_id WorkflowState.pending (some attempt) none
              (some (backoff_from x now.utc policy (sub_u32 attempt 1))) ended (λ e. cc),
        )
        | inr e ↦ rw (
          e,
          update_step_state_lem x a.step_id WorkflowState.failed (some attempt) none none ended
              (λ e. cc),
        )
      ]

  pub policy_outcome :
      (now : Now) (id error_message : String) (s : Server) (a : ActivityRow) (r : StepRow)
      (p : Option RetryPolicy)
      → find (has_activity id) s.db.activities ≡ some a
      → find (has_step a.step_id) s.db.workflow_steps ≡ some r
      → x.retry_from_str r.retry_policy_json ≡ p
      → PolicyOutcome now id error_message s a p
  unfolding report_activity_failure find_activity find_step
  policy_outcome now id error_message s a r none e f g = rw (e, f, g)
  policy_outcome now id error_message s a r (some policy) e f g = rw (
    e,
    f,
    g,
    update_activity_state_lem x now.sql id ActivityState.failed none (some error_message) s.db
        (λ e. cc),
    retry_or_fail_lem now a policy id error_message s,
  )

  step_outcome :
      (now : Now) (id error_message : String) (s : Server) (a : ActivityRow)
      (found : Option StepRow)
      → find (has_activity id) s.db.activities ≡ some a
      → find (has_step a.step_id) s.db.workflow_steps ≡ found
      → StepOutcome now id error_message s a found
  unfolding report_activity_failure find_activity find_step
  step_outcome now id error_message s a none e f = rw (e, f)
  step_outcome now id error_message s a (some r) e f =
      policy_outcome now id error_message s a r _ e f refl

  failure_outcome :
      (now : Now) (id error_message : String) (s : Server) (found : Option ActivityRow)
      → find (has_activity id) s.db.activities ≡ found
      → FailureOutcome now id error_message s found
  unfolding report_activity_failure find_activity
  failure_outcome now id error_message s none e = rw e
  failure_outcome now id error_message s (some a) e = step_outcome now id error_message s a _ e refl

  -- A report of a failure is an error that changes nothing if the activity, its step or a retry policy in the
  -- step's row is not there. Else it ends the activity as failed, with the message, and gives the step one
  -- attempt more than the activity had: pending until the back-off has passed if that is below the maximum,
  -- else failed. It leaves the runs as they are and sends no event to the engine.
  pub report_activity_failure_lem :
      (now : Now) (id error_message : String) (s : Server)
      → FailureOutcome now id error_message s (find (has_activity id) s.db.activities)
  report_activity_failure_lem now id error_message s = failure_outcome now id error_message s _ refl
