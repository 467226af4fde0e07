-- ===== src/Server/Engine/Sweeps.antt =====
-- check_retries and check_heartbeats: the sweeps that the events replace.
use khronos.Prelude.{
  ℕ, String, Bool, false, Option, none, some, List, [], ◌∷◌, ◌==◌, ◌&&◌, ltb, text_leb, unwrap_or,
  map, if◌then◌else◌,
}
use khronos.Prelude.Result.{Result, ok, err}
use khronos.Prelude.Exec.{Exec, pure, lift, ◌>>=◌, ◌>>◌}
use khronos.Values.{DateTime, sub_u32, i64_ltb}
use khronos.Core.Activity.{ActivityState, RetryPolicy, default_retry_policy}
use khronos.Core.Workflow.{WorkflowState}
use khronos.External.{External, Now}
use khronos.Table.{select, find}
use khronos.Db.Error.{DbError, bad_datetime}
use khronos.Db.Schema.{StepRow, has_step}
use khronos.Db.Activities.{
  RunningActivity, get_running_activities, update_step_state, update_activity_state,
}
use khronos.Server.State.{Server, db_read, db_write}
use khronos.Server.Worker.Handlers.{backoff_from}
use khronos.Server.Engine.Timers.{timer_format}
use khronos.Server.Engine.Handlers.{reset_step, retry_policy_json}

abbrev reached : String → Option String → Bool
reached now none = false
reached now (some at) = text_leb at now

-- `state = 'retried' AND next_retry_at IS NOT NULL AND next_retry_at <= ?1`
abbrev pub is_ripe : String → StepRow → Bool
is_ripe now r = r.state == "retried" && reached now r.next_retry_at

abbrev pub step_id : StepRow → String
step_id r = r.id

module _ (x : External) where
  unfoldable pub reset_steps : List String → Exec Server DbError (Unit {0})
  reset_steps [] = pure tt
  reset_steps (id ∷ ids) = do db_write (λ e. e) (reset_step x id); reset_steps ids

  unfoldable pub check_retries : Now → Exec Server DbError (Unit {0})
  unfolding reset_steps
  check_retries now = do
    ids ←
        db_read (λ e. e)
          (λ db. ok (map step_id (select (is_ripe (x.format now.utc)) db.workflow_steps)))
    reset_steps ids

  abbrev parse_time : String → Result (Option DateTime) DbError
  parse_time s = elim (x.zoned_parse timer_format s) [
    | none ↦ err (bad_datetime s)
    | some d ↦ ok (some d)
  ]

  -- the time that the timeout counts from, where there is one
  abbrev pub last_heard : RunningActivity → Result (Option DateTime) DbError
  last_heard a = elim a.last_heartbeat_at_str [
    | some hb ↦ parse_time hb
    | none ↦ elim a.started_at_str [ some started ↦ parse_time started | none ↦ ok none ]
  ]

  -- the retry, or the end of the step
  unfoldable pub retry_or_end : Now → RunningActivity → RetryPolicy → Exec Server DbError (Unit {0})
  retry_or_end now a policy =
      if ltb a.attempt policy.maximum_attempts
      then db_write (λ e. e)
          (update_step_state x a.step_id WorkflowState.pending (some a.attempt) none
            (some (backoff_from x now.utc policy (sub_u32 a.attempt 1))))
      else db_write (λ e. e)
          (update_step_state x a.step_id WorkflowState.failed (some a.attempt) none none)

  unfoldable pub end_activity : Now → RunningActivity → Exec Server DbError (Unit {0})
  unfolding retry_or_end
  end_activity now a = do
    db_write (λ e. e)
        (update_activity_state x now.sql a.id ActivityState.failed none (some "Heartbeat timeout"))
    policy ←
        db_read (λ e. e)
          (λ db. ok (
            unwrap_or
              (x.retry_from_str (retry_policy_json (find (has_step a.step_id) db.workflow_steps)))
              default_retry_policy))
    retry_or_end now a policy

  abbrev pub end_if_overdue :
      Now → RunningActivity → ℕ → Option DateTime → Exec Server DbError (Unit {0})
  end_if_overdue now a timeout none = pure tt
  end_if_overdue now a timeout (some at) =
      if i64_ltb timeout (x.seconds_since at now.utc) then end_activity now a else pure tt

  abbrev pub check_heartbeat : Now → RunningActivity → Option ℕ → Exec Server DbError (Unit {0})
  check_heartbeat now a none = pure tt
  check_heartbeat now a (some timeout) = do
    at ← lift (last_heard a)
    end_if_overdue now a timeout at

  unfoldable pub check_each : Now → List RunningActivity → Exec Server DbError (Unit {0})
  check_each now [] = pure tt
  check_each now (a ∷ rows) = do check_heartbeat now a a.heartbeat_timeout_secs; check_each now rows

  unfoldable pub check_heartbeats : Now → Exec Server DbError (Unit {0})
  unfolding check_each
  check_heartbeats now = do
    running_activities ← db_read (λ e. e) get_running_activities
    check_each now running_activities
