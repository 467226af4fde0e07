-- ===== src/Server/Engine/Timeouts.antt =====
-- What the engine does when a heartbeat is overdue.
use khronos.Prelude.{
  ◌-◌, String, [], ◌∷◌, ◌++◌, ◌≡◌, refl, ◌==◌, none, some, ltb, unwrap_or, if◌then◌else◌,
  Bool-cases, inl, inr,
}
use khronos.Prelude.Result.{ok}
use khronos.Values.{as_64}
use khronos.Core.Activity.{ActivityState, RetryPolicy, default_retry_policy}
use khronos.Core.Workflow.{WorkflowState}
use khronos.External.{External, Now}
use khronos.Table.{find, find-update_same}
use khronos.Db.Schema.{StepRow, ActivityRow, Db, has_step, has_activity}
use khronos.Db.States.{workflow_state_to_str}
use khronos.Db.Dates.{format_datetime}
use khronos.Db.Activities.{set_step_state}
use khronos.Db.Activities.Laws.{
  with_step, with_activity, update_step_state_lem, update_activity_state_lem,
}
use khronos.Server.State.{Server, deadline_from, retry_due, find_activity, find_step}
use khronos.Server.Worker.Handlers.{backoff_from}
use khronos.Server.Engine.Outcome.{settle, started, verdict, process_single_workflow_lem}
use khronos.Server.Engine.Handlers.{
  from_u32, schedule_retry, give_up, time_out, handle_heartbeat_timeout,
}

module _ (x : External) where
  abbrev pub policy_of : StepRow → RetryPolicy
  policy_of r = unwrap_or (x.retry_from_str r.retry_policy_json) default_retry_policy

  -- the activity ended, its step not yet
  abbrev pub overdue : Now → ActivityRow → Db → Db
  overdue now a db =
      with_activity x now.sql a.id ActivityState.failed (some "Heartbeat timeout") db none

  -- the step waits for the back-off, with a timer
  abbrev pub retried : Now → ActivityRow → StepRow → Server → Server
  retried now a r s =
      let attempt = from_u32 a.attempt in
      let at = backoff_from x now.utc (policy_of r) (attempt - 1) in
      record s {
        db =
            with_step x a.step_id WorkflowState.pending (some attempt) (some at)
              (overdue now a s.db) none;
        timers =
            s.timers
            ++ record { deadline = deadline_from now.utc at; event = retry_due a.step_id } ∷ [];
      }

  -- the step is failed, and its run ends if that was its last
  abbrev pub given_up : Now → ActivityRow → StepRow → Server → Server
  given_up now a r s =
      let db' =
        with_step x a.step_id WorkflowState.failed (some (from_u32 a.attempt)) none
          (overdue now a s.db) none in
      record s {
        db =
            settle x now r.workflow_run_id (verdict r.workflow_run_id db'.workflow_steps)
              (started x now r.workflow_run_id db');
      }

  schedule_retry_lem :
      (now : Now) (a : ActivityRow) (r : StepRow) (s : Server)
      → schedule_retry x now a.step_id
          (policy_of r)
          (from_u32 a.attempt)
          (record s { db = overdue now a s.db })
        ≡ (ok tt, retried now a r s)
  unfolding schedule_retry
  schedule_retry_lem now a r s =
      let attempt = from_u32 a.attempt in
      rw (
        update_step_state_lem x a.step_id WorkflowState.pending (some attempt) none
          (some (backoff_from x now.utc (policy_of r) (attempt - 1))) (overdue now a s.db)
          (λ e. cc))

  give_up_lem :
      (now : Now) (a : ActivityRow) (r : StepRow) (s : Server)
      → find (has_step a.step_id) s.db.workflow_steps ≡ some r
      → give_up x now a.step_id (from_u32 a.attempt) (record s { db = overdue now a s.db })
        ≡ (ok tt, given_up now a r s)
  unfolding give_up find_step workflow_state_to_str
  give_up_lem now a r s f =
      let attempt = from_u32 a.attempt in
      let set = set_step_state "failed" (some (as_64 attempt)) none (format_datetime x none) in
      let db' =
        with_step x a.step_id WorkflowState.failed (some attempt) none (overdue now a s.db) none in
      rw
        (
          update_step_state_lem x a.step_id WorkflowState.failed (some attempt) none none
              (overdue now a s.db) (λ e. cc),
          find-update_same (has_step a.step_id) set (λ r. refl) s.db.workflow_steps {r = r} f,
        )
        (process_single_workflow_lem x now r.workflow_run_id (record s { db = db' }))

  -- An overdue heartbeat of an activity that is not running changes nothing. Of one that is running, whose step
  -- is there, it ends the activity as failed, and the step waits for a retry, with a timer, if the attempt is
  -- below the policy's maximum; else the step fails and the run ends if no step of it is left.
  pub handle_heartbeat_timeout_lem :
      (now : Now) (id : String) (s : Server) (a : ActivityRow) (r : StepRow)
      → find (has_activity id) s.db.activities ≡ some a
      → find (has_step a.step_id) s.db.workflow_steps ≡ some r
      → handle_heartbeat_timeout x now id s ≡ (
        ok tt,
        if a.state == "running"
            then if ltb (from_u32 a.attempt) (policy_of r).maximum_attempts
              then retried now a r s
              else given_up now a r s
            else s,
      )
  unfolding handle_heartbeat_timeout find_activity time_out
  handle_heartbeat_timeout_lem now id s a r e f = elim (Bool-cases (a.state == "running")) [
    | inr off ↦ rw (e, off)
    | inl on ↦ elim (Bool-cases (ltb (from_u32 a.attempt) (policy_of r).maximum_attempts)) [
      | inl below ↦
          rw
            (
              e,
              on,
              f,
              update_activity_state_lem x now.sql a.id ActivityState.failed none
                  (some "Heartbeat timeout") s.db (λ e. cc),
              below,
            )
            (schedule_retry_lem now a r s)
      | inr used_up ↦
          rw
            (
              e,
              on,
              f,
              update_activity_state_lem x now.sql a.id ActivityState.failed none
                  (some "Heartbeat timeout") s.db (λ e. cc),
              used_up,
            )
            (give_up_lem now a r s f)
    ]
  ]
