-- ===== src/Server/Worker/Log.antt =====
-- The statements of the worker's handlers.
use khronos.Prelude.{String, ℕ, Option, none, some, ◌≡◌, ◌==◌, Bool-cases, inl, inr, arith}
use mathlib.Core.Path.{subst}
use khronos.Prelude.Result.{ok}
use khronos.Values.{Value, Uuid, DateTime, object, end}
use khronos.Core.Activity.{RetryPolicy}
use khronos.Core.Workflow.{WorkflowStepInstance}
use khronos.External.{External, Now}
use khronos.Server.Log.Operations.{
  update_workflow_state-IsStatement, update_step_state-IsStatement,
  update_activity_state-IsStatement, insert_activity_attempt-IsStatement,
  heartbeat_update-IsStatement,
}
use khronos.Server.Log.Statements.{Stored, no_result, parsed, empty_result}
use khronos.Server.Log.{IsLogged, log_rules, IsLogged-pure, IsLogged-bind_lift}
use khronos.Server.Worker.Handlers.{
  PollActivityRequest, hand_out, hand_out_first, poll_activity, parse_result,
  report_activity_result, retry_or_fail, report_activity_failure, heartbeat,
}

ruleset writes = (
  update_workflow_state-IsStatement, update_step_state-IsStatement,
  update_activity_state-IsStatement, insert_activity_attempt-IsStatement,
  heartbeat_update-IsStatement, no_result,
)

module _ (x : External) where
  hand_out-IsLogged :
      (now : Now) (id : Uuid) (step : WorkflowStepInstance) → IsLogged x (hand_out x now id step)
  unfolding hand_out
  hand_out-IsLogged now id step = search (log_rules, writes)

  hand_out_first-IsLogged :
      (now : Now) (id : Uuid) (found : Option WorkflowStepInstance)
      → IsLogged x (hand_out_first x now id found)
  hand_out_first-IsLogged now id none = IsLogged-pure _
  hand_out_first-IsLogged now id (some step) = hand_out-IsLogged now id step

  pub poll_activity-IsLogged :
      (now : Now) (id : Uuid) (req : PollActivityRequest) → IsLogged x (poll_activity x now id req)
  unfolding poll_activity
  poll_activity-IsLogged now id req = search (log_rules, hand_out_first-IsLogged)

  parse_result-Stored :
      (result : String) (v : Value) → parse_result x result ≡ ok v → Stored x (some v)
  unfolding parse_result
  parse_result-Stored result v h = elim (Bool-cases (result == "")) [
    | inl e ↦
        subst (λ v. Stored x (some v)) (let e' : object end ≡ v = ground arith in e') empty_result
    | inr e ↦ parsed result v (let e' : x.value_from_str result ≡ some v = ground arith in e')
  ]

  pub report_activity_result-IsLogged :
      (now : Now) (id result : String) → IsLogged x (report_activity_result x now id result)
  unfolding report_activity_result
  report_activity_result-IsLogged now id result =
      IsLogged-bind_lift (parse_result x result) _ λ v e.
        let stored : Stored x (some v) = parse_result-Stored result v e in
        search (log_rules, writes, stored) depth 20

  retry_or_fail-IsLogged :
      (now : DateTime) (id : String) (policy : RetryPolicy) (attempt : ℕ)
      → IsLogged x (retry_or_fail x now id policy attempt)
  unfolding retry_or_fail
  retry_or_fail-IsLogged now id policy attempt = search (log_rules, writes)

  pub report_activity_failure-IsLogged :
      (now : Now) (id error_message : String)
      → IsLogged x (report_activity_failure x now id error_message)
  unfolding report_activity_failure
  report_activity_failure-IsLogged now id error_message =
      search (log_rules, writes, retry_or_fail-IsLogged) depth 20

  pub heartbeat-IsLogged : (now : Now) (id : String) → IsLogged x (heartbeat now id)
  unfolding heartbeat
  heartbeat-IsLogged now id = search (log_rules, writes)
