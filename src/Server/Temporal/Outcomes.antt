-- ===== src/Server/Temporal/Outcomes.antt =====
-- The calls on a task against those of khronos.WorkerService.
use khronos.Prelude.{
  String, Bool, Option, none, some, ◌≡◌, refl, ltb, unwrap_or, Bool-cases, inl, inr, if◌then◌else◌,
  ◌+◌,
}
use khronos.Prelude.Result.{ok}
use khronos.Values.{as_u32, sub_u32, as_64}
use khronos.Core.Activity.{ActivityState, RetryPolicy}
use khronos.Core.Workflow.{WorkflowState}
use khronos.External.{External, Now}
use khronos.Table.{find, find-update_same}
use khronos.Db.Schema.{StepRow, ActivityRow, has_step, has_activity}
use khronos.Db.Activities.{set_step_state}
use khronos.Db.Activities.Laws.{with_activity, update_step_state_lem, update_activity_state_lem}
use khronos.Db.States.{workflow_state_to_str}
use khronos.Db.Dates.{format_datetime}
use khronos.Server.State.{Server, find_activity, find_step, step_completed}
use khronos.Server.Worker.Handlers.{report_activity_failure, backoff_from}
use khronos.Server.Worker.Outcomes.{failed_with, policy_outcome}
use khronos.Server.Worker.Attempts.{sent}
use khronos.Server.Temporal.Tasks.{retry_or_notify, respond_activity_task_failed}

-- the engine is told of the run if the step has ended
abbrev pub told : Bool → String → Server → Server
told retries run_id s = if retries then s else sent (step_completed run_id) s

module _ (x : External) where
  retry_or_notify_lem :
      (now : Now) (a : ActivityRow) (policy : RetryPolicy) (id error_message : String) (s : Server)
      (r : StepRow)
      → find (has_step a.step_id) s.db.workflow_steps ≡ some r
      → retry_or_notify x now.utc a.step_id policy (as_u32 (as_u32 a.attempt + 1)) (record s {
        db = with_activity x now.sql id ActivityState.failed (some error_message) s.db none;
      })
        ≡ (
          ok tt,
          told
              (ltb (as_u32 (as_u32 a.attempt + 1)) policy.maximum_attempts)
              r.workflow_run_id
              (record s { db = failed_with x now id error_message a policy s.db }),
        )
  unfolding retry_or_notify find_step workflow_state_to_str
  retry_or_notify_lem now a policy id error_message s r f =
      let attempt = as_u32 (as_u32 a.attempt + 1) in
      let ended = with_activity x now.sql id ActivityState.failed (some error_message) s.db none in
      elim (Bool-cases (ltb attempt policy.maximum_attempts)) [
        | inl e ↦ rw (
          e,
          update_step_state_lem x a.step_id WorkflowState.pending (some attempt) none
              (some (backoff_from x now.utc policy (sub_u32 attempt 1))) ended (λ e. cc),
        )
        | inr e ↦ rw (
          e,
          update_step_state_lem x a.step_id WorkflowState.failed (some attempt) none none ended
              (λ e. cc),
          find-update_same (has_step a.step_id)
              (set_step_state "failed" (some (as_64 attempt)) none (format_datetime x none))
              (λ r. refl) s.db.workflow_steps {r = r} f,
        )
      ]

  -- A failure reported through the Temporal-compatible call leaves the server that the same report to
  -- khronos.WorkerService leaves, and tells the engine of the step's run where the step has failed for
  -- good, given that the activity, its step and the step's retry policy are there.
  pub respond_activity_task_failed-report_activity_failure :
      (now : Now) (id : String) (failure : Option String) (s : Server) (a : ActivityRow)
      (r : StepRow) (policy : RetryPolicy)
      → find (has_activity id) s.db.activities ≡ some a
      → find (has_step a.step_id) s.db.workflow_steps ≡ some r
      → x.retry_from_str r.retry_policy_json ≡ some policy
      → respond_activity_task_failed x now id failure s ≡ (
        ok tt,
        told
            (ltb (as_u32 (as_u32 a.attempt + 1)) policy.maximum_attempts)
            r.workflow_run_id
            (report_activity_failure x now id (unwrap_or failure "") s).1,
      )
  unfolding respond_activity_task_failed find_activity find_step
  respond_activity_task_failed-report_activity_failure now id failure s a r policy e f g = rw (
    e,
    f,
    g,
    update_activity_state_lem x now.sql id ActivityState.failed none (some (unwrap_or failure ""))
        s.db (λ e. cc),
    retry_or_notify_lem now a policy id (unwrap_or failure "") s r f,
    policy_outcome x now id (unwrap_or failure "") s a r (some policy) e f g,
  )
