-- ===== src/Server/Temporal/Failure.antt =====
-- A failure that ends a step, and the engine's answer to it.
use khronos.Prelude.{
  String, List, [], ◌∷◌, ◌≡◌, ◌≢◌, refl, true, false, Option, none, some, arith, All, eq_iff,
  eq_refl, Bool-cases, inl, inr, ltb, ◌+◌, unwrap_or,
}
use khronos.Values.{as_u32, as_64}
use khronos.Core.Activity.{ActivityState, RetryPolicy}
use khronos.Core.Workflow.{WorkflowState}
use khronos.External.{External, Now}
use khronos.Table.{find, exists, update, find-update, find-update_same, edit}
use khronos.Table.Keys.{find-exists_other}
use khronos.Db.Schema.{has_activity, StepRow, ActivityRow, WorkflowRow, Db, has_step, has_run}
use khronos.Db.Activities.{set_step_state, is_runnable}
use khronos.Db.Workflows.{set_workflow_state}
use khronos.Db.States.{workflow_state_to_str}
use khronos.Db.Dates.{format_datetime}
use khronos.Server.State.{Server, step_completed}
use khronos.Server.Engine.Handlers.{handle}
use khronos.Server.Engine.Process.{of_run, of_run_in, is_starting, start_row}
use khronos.Server.Engine.Outcome.{verdict, ends_failed, settle, started}
use khronos.Server.Completion.{handle-step_completed, sent-db}
use khronos.Server.Worker.Attempts.{sent}
use khronos.Db.Activities.Laws.{with_step, with_activity}
use khronos.Server.Worker.Outcomes.{policy_outcome}
use khronos.Server.Temporal.Tasks.{respond_activity_task_failed}
use khronos.Server.Temporal.Outcomes.{respond_activity_task_failed-report_activity_failure}

-- no other step of the run waits for a worker or a retry
abbrev pub OthersDone : String → String → List StepRow → Type 0
OthersDone run_id id = All (λ r. r.id ≢ id → is_runnable run_id r ≡ false)

module _ (run_id id : String) (set : StepRow → StepRow)
    (fails : (r : StepRow) → (set r).state ≡ "failed") (same_id : (r : StepRow) → (set r).id ≡ r.id)
    (same_run : (r : StepRow) → (set r).workflow_run_id ≡ r.workflow_run_id) where
  none_runnable :
      (steps : List StepRow)
      → OthersDone run_id id steps
      → exists (is_runnable run_id) (update (has_step id) set steps) ≡ false
  unfolding exists update
  none_runnable [] h = refl
  none_runnable (r ∷ steps) h = elim (Bool-cases (has_step id r)) [
    | inl e ↦
        let off : is_runnable run_id (set r) ≡ false = rw (fails r) (ground arith) in
        rw (e, off, none_runnable steps h.1)
    | inr e ↦ rw (e, h.0 (λ same. ground (arith, eq_iff r.id id, e, same)), none_runnable steps h.1)
  ]

  one_failed :
      (steps : List StepRow) {r : StepRow}
      → find (has_step id) steps ≡ some r
      → of_run run_id r ≡ true
      → exists (of_run_in run_id "failed") (update (has_step id) set steps) ≡ true
  one_failed steps {r} f own =
      find-exists_other (of_run_in run_id "failed") (has_step id) (update (has_step id) set steps)
        {r = set r} (find-update_same (has_step id) set (λ y. rw (same_id y)) steps {r = r} f)
        (rw (same_run r, own, fails r) refl)

  failed_verdict :
      (steps : List StepRow) {r : StepRow}
      → OthersDone run_id id steps
      → find (has_step id) steps ≡ some r
      → of_run run_id r ≡ true
      → verdict run_id (update (has_step id) set steps) ≡ ends_failed
  failed_verdict steps {r} others f own =
      rw (none_runnable steps others, one_failed steps {r = r} f own)

module _ (x : External) where
  -- the row of a run that ends as failed
  failed_run :
      (now : Now) (run_id : String) (db : Db) (w : WorkflowRow)
      → find (has_run run_id) db.workflows ≡ some w
      → (w' : WorkflowRow) × (find
            (has_run run_id)
            (settle x now run_id ends_failed (started x now run_id db)).workflows
          ≡ some w')
        × (w'.state ≡ "failed")
        × (w'.completed_at ≡ format_datetime x (some now.utc))
  unfolding workflow_state_to_str
  failed_run now run_id db w e =
      let set = set_workflow_state "failed" none (format_datetime x (some now.utc)) in
      let w1 = edit (is_starting run_id) (start_row now.sql) w in
      let e1 : find (has_run run_id) (started x now run_id db).workflows ≡ some w1 = rw (
        find-update (has_run run_id) (is_starting run_id) (start_row now.sql) (λ r. refl)
            db.workflows,
        e,
      ) in
      (
        set w1,
        find-update_same (has_run run_id) set (λ r. refl) (started x now run_id db).workflows
            {r = w1} e1,
        refl,
        refl,
      )

  -- Where the last attempt that a step's policy allows is reported as failed through the Temporal-compatible
  -- call, and no other step of the run waits for a worker or a retry, the engine's handling of the event ends the
  -- run as failed.
  pub respond_activity_task_failed-handle :
      (now later : Now) (id : String) (failure : Option String) (s : Server) (a : ActivityRow)
      (r : StepRow) (policy : RetryPolicy) (w : WorkflowRow)
      → find (has_activity id) s.db.activities ≡ some a
      → find (has_step a.step_id) s.db.workflow_steps ≡ some r
      → x.retry_from_str r.retry_policy_json ≡ some policy
      → ltb (as_u32 (as_u32 a.attempt + 1)) policy.maximum_attempts ≡ false
      → find (has_run r.workflow_run_id) s.db.workflows ≡ some w
      → OthersDone r.workflow_run_id a.step_id s.db.workflow_steps
      → (w' : WorkflowRow) × (find
            (has_run r.workflow_run_id)
            (handle x later
              (step_completed r.workflow_run_id)
              (respond_activity_task_failed x now id failure s).1).1.db.workflows
          ≡ some w')
        × (w'.state ≡ "failed")
        × (w'.completed_at ≡ format_datetime x (some later.utc))
  unfolding workflow_state_to_str
  respond_activity_task_failed-handle now later id failure s a r policy w e f g last k others =
      let message = unwrap_or failure "" in
      let attempt = as_u32 (as_u32 a.attempt + 1) in
      let set = set_step_state "failed" (some (as_64 attempt)) none (format_datetime x none) in
      let db' =
        with_step x a.step_id WorkflowState.failed (some attempt) none
          (with_activity x now.sql id ActivityState.failed (some message) s.db none) none in
      let event = step_completed r.workflow_run_id in
      let t : Server = record s { db = db' } in
      let after : (respond_activity_task_failed x now id failure s).1 ≡ sent event t = rw (
        respond_activity_task_failed-report_activity_failure x now id failure s a r policy e f g,
        policy_outcome x now id message s a r (some policy) e f g,
        last,
      ) in
      rw
        (
          after,
          handle-step_completed x later r.workflow_run_id (sent event t),
          sent-db x event t,
          failed_verdict r.workflow_run_id a.step_id set (λ r. refl) (λ r. refl) (λ r. refl)
              s.db.workflow_steps {r = r} others f (eq_refl r.workflow_run_id),
        )
        (failed_run later r.workflow_run_id db' w k)
