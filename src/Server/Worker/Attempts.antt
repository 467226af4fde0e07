-- ===== src/Server/Worker/Attempts.antt =====
-- A poll, a report of a result, and what one failed attempt costs a step.
use khronos.Prelude.{
  ℕ, List, [], ◌∷◌, ◌++◌, String, ◌≡◌, refl, true, false, none, some, arith, ◌+◌, ◌<◌, ◌^◌, ltb,
  if◌then◌else◌, eq_refl,
}
use khronos.Prelude.Result.{Result, ok, err, map_ok, map_err}
use khronos.Values.{Value, Uuid, as_u32, as_64, sub_u32}
use khronos.Core.Activity.{ActivityState, RetryPolicy}
use khronos.Core.Workflow.{WorkflowState, WorkflowStepInstance}
use khronos.External.{External, Now}
use khronos.Table.{find, exists, find-append_row, find-update_same}
use khronos.Table.Keys.{find-exists}
use khronos.Db.Error.{DbError}
use khronos.Db.Schema.{StepRow, ActivityRow, Db, has_step, has_activity}
use khronos.Db.Workflows.{value_text}
use khronos.Db.Activities.{get_pending_steps, set_activity_state, set_step_state}
use khronos.Db.Activities.Laws.{
  with_step, with_activity, update_step_state_lem, update_activity_state_lem, attempt_row,
}
use khronos.Db.States.{workflow_state_to_str, activity_state_to_str}
use khronos.Db.Dates.{format_datetime}
use khronos.Prelude.{Bool-cases, inl, inr}
use khronos.Server.Worker.Handlers.{backoff_from}
use khronos.Server.State.{Server, internal, find_activity, find_step, EngineEvent, step_completed}
use khronos.Server.Worker.Handlers.{
  hand_out, no_task, poll_activity, report_activity_failure, parse_result, report_activity_result,
  handles,
}
use khronos.Server.Worker.Outcomes.{handed_out, hand_out_lem, failed_with, policy_outcome}

find_unlisted : (steps : List WorkflowStepInstance) → find (handles []) steps ≡ none
unfolding find
find_unlisted [] = refl
find_unlisted (step ∷ steps) = rw (find_unlisted steps)

-- the server with an event more on the engine's channel, if there is an engine
abbrev pub sent : EngineEvent → Server → Server
sent event s = if s.engine_tx then record s { events = s.events ++ event ∷ [] } else s

module _ (x : External) where
  -- A poll that lists no activity types, as the worker's poller sends it, gets no task whatever is due, and
  -- changes nothing.
  pub poll_activity-no_types :
      (now : Now) (id : Uuid) (task_queue : String) (s : Server)
      → poll_activity x now id (record { task_queue = task_queue; activity_types = [] }) s ≡ (
        map_err
            (internal "Failed to get pending steps")
            (map_ok (λ _. no_task) (get_pending_steps x now.sql s.db)),
        s,
      )
  unfolding poll_activity
  poll_activity-no_types now id task_queue s = polled (get_pending_steps x now.sql s.db) refl
    where
      polled :
          (r : Result (List WorkflowStepInstance) DbError)
          → get_pending_steps x now.sql s.db ≡ r
          → poll_activity x now id (record { task_queue = task_queue; activity_types = [] }) s
            ≡ (map_err (internal "Failed to get pending steps") (map_ok (λ _. no_task) r), s)
      polled (ok steps) e = rw (e, find_unlisted steps)
      polled (err d) e = rw e

  -- Reporting the result of an activity that is there completes the activity and its step, both with the
  -- result as text, in whatever states they are, and tells the engine, if there is one, of the step's run.
  pub report_activity_result_lem :
      (now : Now) (id result : String) (s : Server) (v : Value) (text : String) (a : ActivityRow)
      (r : StepRow)
      → parse_result x result ≡ ok v
      → x.value_to_string v ≡ some text
      → find (has_activity id) s.db.activities ≡ some a
      → find (has_step a.step_id) s.db.workflow_steps ≡ some r
      → report_activity_result x now id result s ≡ (
        ok true,
        sent (step_completed r.workflow_run_id) (record s {
          db =
              with_step x a.step_id WorkflowState.completed none none
                (with_activity x now.sql id ActivityState.completed none s.db (some text))
                (some text);
        }),
      )
  unfolding report_activity_result find_activity find_step value_text
  report_activity_result_lem now id result s v text a r p w e f =
      let ended = with_activity x now.sql id ActivityState.completed none s.db (some text) in
      rw (
        p,
        update_activity_state_lem x now.sql id ActivityState.completed (some v) none s.db (λ e. cc),
        w,
        find-update_same (has_activity id)
            (set_activity_state now.sql (activity_state_to_str ActivityState.completed) (some text)
              none)
            (λ r. refl) s.db.activities {r = a} e,
        update_step_state_lem x a.step_id WorkflowState.completed none (some v) none ended
            (λ e. cc),
        w,
        find-update_same (has_step a.step_id)
            (set_step_state (workflow_state_to_str WorkflowState.completed) none (some text)
              (format_datetime x none))
            (λ r. refl) s.db.workflow_steps {r = r} f,
      )

  -- the row of a step after an attempt of it failed
  abbrev pub AfterFailure : ℕ → RetryPolicy → StepRow → Type 0
  AfterFailure attempt policy r =
      (r.attempt ≡ as_64 attempt)
      × (r.state ≡ (if ltb attempt policy.maximum_attempts then "pending" else "failed"))

  pub failed_row :
      (now : Now) (id error_message : String) (a : ActivityRow) (policy : RetryPolicy) (db : Db)
      (r : StepRow)
      → find (has_step a.step_id) db.workflow_steps ≡ some r
      → (r' : StepRow) × (find
            (has_step a.step_id)
            (failed_with x now id error_message a policy db).workflow_steps
          ≡ some r')
        × AfterFailure (as_u32 (as_u32 a.attempt + 1)) policy r'
  unfolding workflow_state_to_str
  failed_row now id error_message a policy db r f =
      let attempt = as_u32 (as_u32 a.attempt + 1) in
      let at = format_datetime x (some (backoff_from x now.utc policy (sub_u32 attempt 1))) in
      elim (Bool-cases (ltb attempt policy.maximum_attempts)) [
        | inl e ↦ (
          set_step_state "pending" (some (as_64 attempt)) none at r,
          rw (
            e,
            find-update_same (has_step a.step_id)
                (set_step_state "pending" (some (as_64 attempt)) none at) (λ r. refl)
                db.workflow_steps {r = r} f,
          ),
          (refl, rw e),
        )
        | inr e ↦ (
          set_step_state "failed" (some (as_64 attempt)) none (format_datetime x none) r,
          rw (
            e,
            find-update_same (has_step a.step_id)
                (set_step_state "failed" (some (as_64 attempt)) none (format_datetime x none))
                (λ r. refl) db.workflow_steps {r = r} f,
          ),
          (refl, rw e),
        )
      ]

  -- A task handed out at attempt n and reported as failed leaves its step at attempt n + 2, where two is added
  -- for the one execution: pending if n + 2 is below the policy's maximum, else failed.
  pub hand_out-report_activity_failure :
      (now later : Now) (id : Uuid) (step : WorkflowStepInstance) (error_message : String)
      (s : Server) (r : StepRow) (policy : RetryPolicy)
      → exists (has_activity (x.uuid_to_string id)) s.db.activities ≡ false
      → find (has_step (x.uuid_to_string step.id)) s.db.workflow_steps ≡ some r
      → x.retry_from_str r.retry_policy_json ≡ some policy
      → step.attempt + 2 < 2 ^ 32
      → (r' : StepRow) × (find
            (has_step (x.uuid_to_string step.id))
            (report_activity_failure x later
              (x.uuid_to_string id)
              error_message
              (hand_out x now id step s).1).1.db.workflow_steps
          ≡ some r')
        × (r'.attempt ≡ step.attempt + 2)
        × (r'.state
            ≡ (if ltb (step.attempt + 2) policy.maximum_attempts then "pending" else "failed"))
  unfolding workflow_state_to_str
  hand_out-report_activity_failure now later id step error_message s r policy fresh f g small =
      let step_id = x.uuid_to_string step.id in
      let id_text = x.uuid_to_string id in
      let attempt = as_u32 (step.attempt + 1) in
      let s' = record s { db = handed_out x now id step s.db } in
      let a = attempt_row now.sql id_text step_id attempt in
      let set = set_step_state "running" (some (as_64 attempt)) none (format_datetime x none) in
      let found : find (has_step step_id) s'.db.workflow_steps ≡ some (set r) =
        find-update_same (has_step step_id) set (λ r. refl) s.db.workflow_steps {r = r} f in
      let started : find (has_activity id_text) s'.db.activities ≡ some a =
        rw (find-append_row (has_activity id_text) a s.db.activities, fresh, eq_refl id_text) in
      let (r', e, after) = failed_row later id_text error_message a policy s'.db (set r) found in
      let two : as_u32 (as_u32 (as_64 attempt) + 1) ≡ step.attempt + 2 = omega arith in
      (
        r',
        rw
            (
              hand_out_lem x now id step s fresh
                  (find-exists (has_step step_id) s.db.workflow_steps {r = r} f),
              policy_outcome x later id_text error_message s' a (set r) (some policy) started found
                  g,
            )
            e,
        rw (after.0, two) (omega arith),
        rw (after.1, two) refl,
      )
