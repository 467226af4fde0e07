-- ===== src/Server/Completion/Late.antt =====
-- A report that comes after the run has ended: report_activity_failure reads no state.
use khronos.Prelude.{
  String, ◌≡◌, refl, ap, true, some, none, ◌∙◌, ◌+◌, eq_refl, Bool-cases, inl, inr, ltb,
}
use khronos.Prelude.Result.{ok}
use khronos.Values.{Value, as_u32}
use khronos.Core.Activity.{ActivityState, RetryPolicy}
use khronos.Core.Workflow.{WorkflowState}
use khronos.External.{External, Now}
use khronos.Table.{find, find-update_same}
use khronos.Db.Schema.{StepRow, ActivityRow, WorkflowRow, Db, has_step, has_run, has_activity}
use khronos.Db.Activities.{set_step_state, set_activity_state}
use khronos.Db.Activities.Laws.{with_step, with_activity}
use khronos.Db.States.{workflow_state_to_str, activity_state_to_str}
use khronos.Db.Dates.{format_datetime}
use khronos.Server.State.{Server, step_completed}
use khronos.Server.Engine.Handlers.{handle}
use khronos.Server.Engine.Outcome.{verdict, ends_completed, settle, started}
use khronos.Server.Worker.Handlers.{parse_result, report_activity_result, report_activity_failure}
use khronos.Server.Worker.Outcomes.{failed_with, policy_outcome}
use khronos.Server.Worker.Attempts.{report_activity_result_lem, AfterFailure, failed_row}
use khronos.Server.Completion.{
  OthersCompleted, completed_verdict, handle-step_completed, sent-db, ended_run,
}

module _ (x : External) where
  failed_with-workflows :
      (now : Now) (id error_message : String) (a : ActivityRow) (policy : RetryPolicy) (db : Db)
      → (failed_with x now id error_message a policy db).workflows ≡ db.workflows
  failed_with-workflows now id error_message a policy db =
      elim (Bool-cases (ltb (as_u32 (as_u32 a.attempt + 1)) policy.maximum_attempts)) [
        | inl e ↦ rw e refl
        | inr e ↦ rw e refl
      ]

  -- the server after a result is reported and the engine has handled the event of a run
  abbrev pub concluded : Now → Now → String → String → String → Server → Server
  concluded now later run_id id result s =
      (handle x later (step_completed run_id) (report_activity_result x now id result s).1).1

  abbrev reported_db : Now → String → String → ActivityRow → Db → Db
  reported_db now id text a db =
      with_step x a.step_id WorkflowState.completed none none
        (with_activity x now.sql id ActivityState.completed none db (some text)) (some text)

  concluded-db :
      (now later : Now) (id result : String) (s : Server) (v : Value) (text : String)
      (a : ActivityRow) (r : StepRow)
      → parse_result x result ≡ ok v
      → x.value_to_string v ≡ some text
      → find (has_activity id) s.db.activities ≡ some a
      → find (has_step a.step_id) s.db.workflow_steps ≡ some r
      → OthersCompleted r.workflow_run_id a.step_id s.db.workflow_steps
      → (concluded now later r.workflow_run_id id result s).db
        ≡ settle x later r.workflow_run_id ends_completed
            (started x later r.workflow_run_id (reported_db now id text a s.db))
  unfolding workflow_state_to_str format_datetime
  concluded-db now later id result s v text a r p t e f others =
      let run_id = r.workflow_run_id in
      let db = reported_db now id text a s.db in
      let told = (report_activity_result x now id result s).1 in
      let reached : told.db ≡ db =
        rw (report_activity_result_lem x now id result s v text a r p t e f)
          (sent-db x (step_completed run_id) (record s { db = db })) in
      let ends : verdict run_id db.workflow_steps ≡ ends_completed =
        completed_verdict run_id a.step_id (some text) s.db.workflow_steps others {r = r} f
          (eq_refl run_id) in
      handle-step_completed x later run_id told
      ∙ ap (λ y. settle x later run_id (verdict run_id y.workflow_steps) (started x later run_id y))
          reached
      ∙ ap (λ d. settle x later run_id d (started x later run_id db)) ends

  -- An activity of a run's only step that is not completed reports its result, and the engine completes the run;
  -- then a failure of the same activity is reported. The answer is success, the run's row has the state
  -- `completed`, and its step's is `pending`, at one attempt more than the activity's, or `failed` if that is not
  -- below the maximum of the step's policy.
  pub concluded-report_activity_failure :
      (now later late : Now) (id result error_message : String) (s : Server) (v : Value)
      (text : String) (a : ActivityRow) (r : StepRow) (w : WorkflowRow) (policy : RetryPolicy)
      → parse_result x result ≡ ok v
      → x.value_to_string v ≡ some text
      → find (has_activity id) s.db.activities ≡ some a
      → find (has_step a.step_id) s.db.workflow_steps ≡ some r
      → find (has_run r.workflow_run_id) s.db.workflows ≡ some w
      → OthersCompleted r.workflow_run_id a.step_id s.db.workflow_steps
      → x.retry_from_str r.retry_policy_json ≡ some policy
      → ((report_activity_failure x late id error_message
            (concluded now later r.workflow_run_id id result s)).0
          ≡ ok true)
        × ((w' : WorkflowRow) × (find
                (has_run r.workflow_run_id)
                (report_activity_failure x late id error_message
                  (concluded now later r.workflow_run_id id result s)).1.db.workflows
              ≡ some w')
            × (w'.state ≡ "completed"))
        × ((r' : StepRow) × (find
                (has_step a.step_id)
                (report_activity_failure x late id error_message
                  (concluded now later r.workflow_run_id id result s)).1.db.workflow_steps
              ≡ some r')
            × AfterFailure x (as_u32 (as_u32 a.attempt + 1)) policy r')
  unfolding workflow_state_to_str activity_state_to_str
  concluded-report_activity_failure now later late id result error_message s v text a r w policy p t
        e f g others h =
      let run_id = r.workflow_run_id in
      let after = concluded now later run_id id result s in
      let db = reported_db now id text a s.db in
      let end = settle x later run_id ends_completed (started x later run_id db) in
      let reached = concluded-db now later id result s v text a r p t e f others in
      let close = set_activity_state now.sql "completed" (some text) none in
      let done = set_step_state "completed" none (some text) (format_datetime x none) in
      let closed : find (has_activity id) after.db.activities ≡ some (close a) =
        ap (λ y. find (has_activity id) y.activities) reached
        ∙ find-update_same (has_activity id) close (λ y. refl) s.db.activities {r = a} e in
      let stored : find (has_step a.step_id) after.db.workflow_steps ≡ some (done r) =
        ap (λ y. find (has_step a.step_id) y.workflow_steps) reached
        ∙ find-update_same (has_step a.step_id) done (λ y. refl) s.db.workflow_steps {r = r} f in
      let (w', found, state, at) = ended_run x later run_id db w g in
      let (r', row, counted) =
        failed_row x late id error_message (close a) policy after.db (done r) stored in
      rw
        (policy_outcome x late id error_message after (close a) (done r) (some policy) closed stored
          h)
        (
          refl,
          (
            w',
            ap (find (has_run run_id))
                  (failed_with-workflows late id error_message (close a) policy after.db)
                ∙ ap (λ y. find (has_run run_id) y.workflows) reached
                ∙ found,
            state,
          ),
          (r', row, counted),
        )
