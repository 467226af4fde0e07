-- ===== src/Server/Completion/Rounds.antt =====
-- Runs of several steps: the worker's calls and the engine, step after step.
use khronos.Prelude.{
  ℕ, suc, String, List, ◌≡◌, ◌≢◌, refl, ap, true, false, some, none, arith, ◌+◌, ◌≤◌, ◌<◌, ◌∙◌,
  eq_iff,
}
use khronos.Prelude.Result.{ok}
use khronos.Values.{Value, Uuid, as_u32, as_64}
use khronos.Core.Workflow.{WorkflowStepInstance}
use khronos.External.{External, Now}
use khronos.Table.{find, exists, count, update, edit, find-update, find-update_same}
use khronos.Table.Keys.{All-update}
use khronos.Table.Closing.{update-update, count-update_lt, All-count_le_1}
use khronos.Db.Schema.{StepRow, WorkflowRow, Db, has_step, has_run, has_activity}
use khronos.Db.Activities.{set_step_state}
use khronos.Db.Workflows.{set_workflow_state}
use khronos.Db.States.{workflow_state_to_str}
use khronos.Db.Dates.{format_datetime}
use khronos.Server.State.{Server, step_completed}
use khronos.Server.Engine.Handlers.{handle}
use khronos.Server.Engine.Process.{of_run}
use khronos.Server.Engine.Outcome.{
  Verdict, goes_on, ends_failed, ends_completed, is_open, settle, started, verdict,
}
use khronos.Server.Worker.Handlers.{hand_out, parse_result, report_activity_result}
use khronos.Server.Worker.Success.{executed, hand_out-report_activity_result}
use khronos.Server.Completion.{
  OthersCompleted, completed_verdict, handle-step_completed, sent-db, ended_run,
}

module _ (x : External) (run_id : String) where
  -- a step of the run is handed out, its result reported, and the engine handles the event
  abbrev pub round : Now → Now → Now → Uuid → WorkflowStepInstance → String → Server → Server
  round now later last id step result s =
      (handle x last (step_completed run_id)
        (report_activity_result x later (x.uuid_to_string id) result
          (hand_out x now id step s).1).1).1

  -- a step of the run that is not completed, a new activity's id, and a result that is read as JSON
  pub record Workable (s : Server) (id : Uuid) (step : WorkflowStepInstance) (result : String)
      (r : StepRow) (v : Value) (text : String) : Type 0 where
    pub fresh : exists (has_activity (x.uuid_to_string id)) s.db.activities ≡ false
    pub stored : find (has_step (x.uuid_to_string step.id)) s.db.workflow_steps ≡ some r
    pub unfinished : is_open run_id r ≡ true
    pub parsed : parse_result x result ≡ ok v
    pub written : x.value_to_string v ≡ some text

  -- how many steps of the run are not completed
  abbrev pub open_steps : Server → ℕ
  open_steps s = count (is_open run_id) s.db.workflow_steps

  -- n rounds, and between them whatever makes no more steps of the run not completed
  pub data Worked (start : Server) : ℕ → Server → Type 0 where
    unworked : Worked start 0 start
    meanwhile :
        (n : ℕ) (s t : Server) → Worked start n s → open_steps t ≤ open_steps s → Worked start n t
    worked :
        (n : ℕ) (s : Server) (now later last : Now) (id : Uuid) (step : WorkflowStepInstance)
        (result : String) (r : StepRow) (v : Value) (text : String)
        → Worked start n s
        → Workable s id step result r v text
        → Worked start (suc n) (round now later last id step result s)

  settle-workflow_steps :
      (now : Now) (v : Verdict) (db : Db)
      → (settle x now run_id v (started x now run_id db)).workflow_steps ≡ db.workflow_steps
  settle-workflow_steps now goes_on db = refl
  settle-workflow_steps now ends_failed db = refl
  settle-workflow_steps now ends_completed db = refl

  pub round-db :
      (now later last : Now) (id : Uuid) (step : WorkflowStepInstance) (result : String)
      (s : Server) (r : StepRow) (v : Value) (text : String)
      → Workable s id step result r v text
      → (round now later last id step result s).db ≡ (
          let db = executed x now later id step text s.db in
          settle x last run_id (verdict run_id db.workflow_steps) (started x last run_id db))
  round-db now later last id step result s r v text ready =
      let given = (hand_out x now id step s).1 in
      let told = (report_activity_result x later (x.uuid_to_string id) result given).1 in
      let reached : told.db ≡ executed x now later id step text s.db =
        rw
          (hand_out-report_activity_result x now later id step result s r v text ready.fresh
            ready.stored ready.parsed ready.written)
          (sent-db x (step_completed r.workflow_run_id)
            (record s { db = executed x now later id step text s.db })) in
      handle-step_completed x last run_id told
      ∙ ap
          (λ db. settle x last run_id (verdict run_id db.workflow_steps) (started x last run_id db))
          reached

  executed_lt :
      (now later : Now) (id : Uuid) (step : WorkflowStepInstance) (result : String) (s : Server)
      (r : StepRow) (v : Value) (text : String)
      → Workable s id step result r v text
      → count (is_open run_id) (executed x now later id step text s.db).workflow_steps
        < open_steps s
  unfolding workflow_state_to_str
  executed_lt now later id step result s r v text ready =
      let q = has_step (x.uuid_to_string step.id) in
      let set =
        set_step_state "running" (some (as_64 (as_u32 (step.attempt + 1)))) none
          (format_datetime x none) in
      let end = set_step_state "completed" none (some text) (format_datetime x none) in
      rw (update-update q set end (λ r. refl) s.db.workflow_steps) (
        count-update_lt (is_open run_id) q (λ r. end (set r)) (λ r. ground arith)
          s.db.workflow_steps {r = r} ready.stored ready.unfinished)

  round_lt :
      (now later last : Now) (id : Uuid) (step : WorkflowStepInstance) (result : String)
      (s : Server) (r : StepRow) (v : Value) (text : String)
      → Workable s id step result r v text
      → open_steps (round now later last id step result s) < open_steps s
  round_lt now later last id step result s r v text ready =
      let db = executed x now later id step text s.db in
      rw
        (
          round-db now later last id step result s r v text ready,
          settle-workflow_steps last (verdict run_id db.workflow_steps) db,
        )
        (executed_lt now later id step result s r v text ready)

  Worked-le :
      (start : Server) (n : ℕ) (s : Server) → Worked start n s → open_steps s + n ≤ open_steps start
  Worked-le start _ _ unworked = omega arith
  Worked-le start _ _ (meanwhile n s t run less) = omega (arith, Worked-le start n s run, less)
  Worked-le start _ _ (worked n s now later last id step result r v text run ready) =
      omega
        (arith, Worked-le start n s run, round_lt now later last id step result s r v text ready)

  -- a row that a task is handed out for, seen by the other rows of its run
  others_completed :
      (id : String) (set : StepRow → StepRow)
      → ((r : StepRow) → (set r).id ≡ r.id)
      → (rows : List StepRow) {r : StepRow} → find (has_step id) rows ≡ some r
      → is_open run_id r ≡ true
      → count (is_open run_id) rows ≤ 1
      → OthersCompleted run_id id (update (has_step id) set rows)
  others_completed id set keeps rows {r} f h one =
      let P : StepRow → Type 0 = λ y. of_run run_id y ≡ true → y.id ≢ id → y.state ≡ "completed" in
      All-update P (has_step id) set
        (λ y e h' own ne. absurd (ne (keeps y ∙ ground (arith, e, eq_iff y.id id)))) rows
        (All-count_le_1 P (is_open run_id) (has_step id)
          (λ y e own ne. ground (arith, e, own, eq_iff y.state "completed"))
          (λ y e own ne. absurd (ne (ground (arith, e, eq_iff y.id id)))) rows {r = r} f h one)

  -- the run's row after a round on its last step
  last_round :
      (now later last : Now) (id : Uuid) (step : WorkflowStepInstance) (result : String)
      (s : Server) (r : StepRow) (v : Value) (text : String) (w : WorkflowRow)
      → Workable s id step result r v text
      → open_steps s ≤ 1
      → find (has_run run_id) s.db.workflows ≡ some w
      → (w' : WorkflowRow) × (find
            (has_run run_id)
            (round now later last id step result s).db.workflows
          ≡ some w')
        × (w'.state ≡ "completed")
        × (w'.completed_at ≡ format_datetime x (some last.utc))
  unfolding workflow_state_to_str format_datetime
  last_round now later last id step result s r v text w ready one e =
      let q = has_step (x.uuid_to_string step.id) in
      let set =
        set_step_state "running" (some (as_64 (as_u32 (step.attempt + 1)))) none
          (format_datetime x none) in
      let run = set_workflow_state "running" none (format_datetime x (some now.utc)) in
      let mine = has_run (x.uuid_to_string step.workflow_run_id) in
      let db = executed x now later id step text s.db in
      let ends : verdict run_id db.workflow_steps ≡ ends_completed =
        completed_verdict run_id (x.uuid_to_string step.id) (some text)
          (update q set s.db.workflow_steps)
          (others_completed (x.uuid_to_string step.id) set (λ y. refl) s.db.workflow_steps {r = r}
            ready.stored ready.unfinished one)
          {r = set r} (find-update_same q set (λ y. refl) s.db.workflow_steps {r = r} ready.stored)
          (ground (arith, ready.unfinished)) in
      let there : find (has_run run_id) db.workflows ≡ some (edit mine run w) =
        rw (find-update (has_run run_id) mine run (λ y. refl) s.db.workflows, e) refl in
      rw (round-db now later last id step result s r v text ready, ends)
        (ended_run x last run_id db (edit mine run w) there)

  -- A run with at most n + 1 steps that are not completed, whatever their states: n times, one of those steps is
  -- handed out, its result reported, and the event handled, and between these rounds happens whatever makes no
  -- more steps of the run not completed. Then one more round, where the run's row is there, leaves the run
  -- completed, at the time of its event. Each round is on a step that is not completed, by an activity whose id is
  -- new, with a result that is read and written as JSON.
  pub Worked-completed :
      (start : Server) (n : ℕ) (s : Server) (now later last : Now) (id : Uuid)
      (step : WorkflowStepInstance) (result : String) (r : StepRow) (v : Value) (text : String)
      (w : WorkflowRow)
      → Worked start n s
      → open_steps start ≤ suc n
      → Workable s id step result r v text
      → find (has_run run_id) s.db.workflows ≡ some w
      → (w' : WorkflowRow) × (find
            (has_run run_id)
            (round now later last id step result s).db.workflows
          ≡ some w')
        × (w'.state ≡ "completed")
        × (w'.completed_at ≡ format_datetime x (some last.utc))
  Worked-completed start n s now later last id step result r v text w run few ready e =
      last_round now later last id step result s r v text w ready
        (omega (arith, Worked-le start n s run, few)) e
