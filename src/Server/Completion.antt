-- ===== src/Server/Completion.antt =====
-- The worker's calls and the engine together: how the end of a step reaches its run.
pub mod Rounds
pub mod Late
use khronos.Prelude.{
  String, List, [], ◌∷◌, ◌≡◌, ◌≢◌, refl, Bool, true, false, Option, none, some, arith, All, eq_iff,
  eq_refl, Bool-cases, inl, inr,
}
use khronos.Prelude.Result.{ok}
use khronos.Values.{Value}
use khronos.Core.Workflow.{WorkflowState}
use khronos.External.{External, Now}
use khronos.Table.{find, exists, update, find-update, find-update_same}
use khronos.Table.Keys.{exists-update, find-exists_other}
use khronos.Core.Activity.{ActivityState}
use khronos.Table.{edit}
use khronos.Db.Activities.Laws.{with_step, with_activity}
use khronos.Server.Engine.Handlers.{handle, handle_step_completed}
use khronos.Server.Engine.TimersOnly.{schedule_timers_for_workflow-db}
use khronos.Server.Worker.Attempts.{sent, report_activity_result_lem}
use khronos.Server.Worker.Handlers.{parse_result, report_activity_result}
use khronos.Db.Schema.{has_activity, StepRow, ActivityRow, WorkflowRow, Db, has_step, has_run}
use khronos.Db.Activities.{set_step_state, is_runnable}
use khronos.Db.Workflows.{set_workflow_state}
use khronos.Db.States.{workflow_state_to_str}
use khronos.Db.Dates.{format_datetime}
use khronos.Server.State.{Server, EngineEvent, step_completed}
use khronos.Server.Engine.Process.{of_run, of_run_in, is_starting, start_row}
use khronos.Server.Engine.Outcome.{
  verdict, ends_completed, is_open, settle, started, process_single_workflow_lem,
}

-- every other step of the run is completed
abbrev pub OthersCompleted : String → String → List StepRow → Type 0
OthersCompleted run_id id = All (λ r. of_run run_id r ≡ true → r.id ≢ id → r.state ≡ "completed")

module _ (run_id id : String) (result : Option String) where
  abbrev completed_step : StepRow → StepRow
  completed_step = set_step_state "completed" none result none

  -- no step of the run is left in a state other than `completed`
  none_in :
      (p : StepRow → Bool)
      → ((r : StepRow) → r.state ≡ "completed" → p r ≡ false)
      → ((r : StepRow) → of_run run_id r ≡ false → p r ≡ false)
      → (rows : List StepRow) → OthersCompleted run_id id rows
      → exists p (update (has_step id) completed_step rows) ≡ false
  unfolding exists update
  none_in p done other [] h = refl
  none_in p done other (r ∷ rows) h = ground (
    arith,
    done r,
    done (completed_step r),
    other r,
    h.0,
    none_in p done other rows h.1,
    eq_iff r.id id,
  )

module _ (run_id id : String) (result : Option String) (steps : List StepRow)
    (others : OthersCompleted run_id id steps) where
  completed_verdict :
      {r : StepRow}
      → find (has_step id) steps ≡ some r
      → of_run run_id r ≡ true
      → verdict run_id (update (has_step id) (completed_step run_id id result) steps)
        ≡ ends_completed
  completed_verdict {r} f own =
      let quiet : (p : StepRow → Bool)
          → ((r : StepRow) → r.state ≡ "completed" → p r ≡ false)
          → ((r : StepRow) → of_run run_id r ≡ false → p r ≡ false)
          → exists p (update (has_step id) (completed_step run_id id result) steps) ≡ false =
        λ p done other. none_in run_id id result p done other steps others in
      rw (
        quiet (is_runnable run_id) (λ r e. rw e (ground arith)) (λ r e. rw e refl),
        quiet (of_run_in run_id "failed") (λ r e. rw e (ground arith)) (λ r e. rw e refl),
        quiet (is_open run_id) (λ r e. rw e (ground arith)) (λ r e. rw e refl),
        exists-update (of_run run_id) (has_step id) (completed_step run_id id result) (λ r. refl)
            steps,
        find-exists_other (of_run run_id) (has_step id) steps {r = r} f own,
      )

module _ (x : External) where
  -- what the engine leaves after an event of a run
  pub handle-step_completed :
      (now : Now) (run_id : String) (s : Server)
      → (handle x now (step_completed run_id) s).1.db
        ≡ settle x now run_id (verdict run_id s.db.workflow_steps) (started x now run_id s.db)
  unfolding handle handle_step_completed
  handle-step_completed now run_id s =
      rw (process_single_workflow_lem x now run_id s)
        (schedule_timers_for_workflow-db x now run_id _)

  pub sent-db : (event : EngineEvent) (s : Server) → (sent event s).db ≡ s.db
  sent-db event s = elim (Bool-cases s.engine_tx) [ inl e ↦ rw e refl | inr e ↦ rw e refl ]

  -- the row of a run that ends as completed
  ended_run :
      (now : Now) (run_id : String) (db : Db) (w : WorkflowRow)
      → find (has_run run_id) db.workflows ≡ some w
      → (w' : WorkflowRow) × (find
            (has_run run_id)
            (settle x now run_id ends_completed (started x now run_id db)).workflows
          ≡ some w')
        × (w'.state ≡ "completed")
        × (w'.completed_at ≡ format_datetime x (some now.utc))
  unfolding workflow_state_to_str
  ended_run now run_id db w e =
      let set = set_workflow_state "completed" none (format_datetime x (some now.utc)) in
      let w1 = edit (is_starting run_id) (start_row now.sql) w in
      let e1 : find (has_run run_id) (started x now run_id db).workflows ≡ some w1 = rw (
        find-update (has_run run_id) (is_starting run_id) (start_row now.sql) (λ r. refl)
            db.workflows,
        e,
      ) in
      (
        set w1,
        find-update_same (has_run run_id) set (λ r. refl) (started x now run_id db).workflows
            {r = w1} e1,
        refl,
        refl,
      )

  -- Where an activity of a run's only step that is not completed reports its result, the engine's handling of
  -- the event completes the run, whatever state the run is in.
  pub report_activity_result-handle :
      (now later : Now) (id result : String) (s : Server) (v : Value) (text : String)
      (a : ActivityRow) (r : StepRow) (w : WorkflowRow)
      → parse_result x result ≡ ok v
      → x.value_to_string v ≡ some text
      → find (has_activity id) s.db.activities ≡ some a
      → find (has_step a.step_id) s.db.workflow_steps ≡ some r
      → find (has_run r.workflow_run_id) s.db.workflows ≡ some w
      → OthersCompleted r.workflow_run_id a.step_id s.db.workflow_steps
      → (w' : WorkflowRow) × (find
            (has_run r.workflow_run_id)
            (handle x later
              (step_completed r.workflow_run_id)
              (report_activity_result x now id result s).1).1.db.workflows
          ≡ some w')
        × (w'.state ≡ "completed")
        × (w'.completed_at ≡ format_datetime x (some later.utc))
  unfolding workflow_state_to_str format_datetime
  report_activity_result-handle now later id result s v text a r w p t e f g others =
      let db' =
        with_step x a.step_id WorkflowState.completed none none
          (with_activity x now.sql id ActivityState.completed none s.db (some text)) (some text) in
      rw
        (
          report_activity_result_lem x now id result s v text a r p t e f,
          handle-step_completed later r.workflow_run_id
              (sent (step_completed r.workflow_run_id) (record s { db = db' })),
          sent-db (step_completed r.workflow_run_id) (record s { db = db' }),
          completed_verdict r.workflow_run_id a.step_id (some text) s.db.workflow_steps others
              {r = r} f (eq_refl r.workflow_run_id),
        )
        (ended_run later r.workflow_run_id db' w g)
