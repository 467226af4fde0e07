-- ===== src/Server/Temporal/Silence.antt =====
-- A run started through the Temporal-compatible call is not announced.
use khronos.Prelude.{ℕ, ◌+◌, List, [], ◌∷◌, ◌≡◌, refl, ◌∙◌, unwrap_or}
use khronos.Prelude.Result.{Result, ok, err}
use khronos.Prelude.Exec.{continue_keeps, pure, ◌>>◌}
use khronos.Values.{Value, Uuid}
use khronos.Core.Workflow.{ActivityStep}
use khronos.External.{External, Now}
use khronos.Db.Error.{DbError}
use khronos.Db.Schema.{Db}
use khronos.Db.Workflows.{insert_workflow}
use khronos.Db.Activities.{insert_workflow_step}
use khronos.Server.State.{Server, Status, stored, internal}
use khronos.Server.Definitions.{Chars, get_workflow_definition}
use khronos.Server.Temporal.Runs.{
  StartWorkflowExecutionRequest, execution_of, execution_step, insert_execution_steps,
  start_workflow_execution, input_json,
}

abbrev Unheard : Server → Server → Type 0
Unheard s t = t.events ≡ s.events

stored-Unheard :
    (f : DbError → Status) (s : Server) (r : Result Db DbError) → Unheard s (stored f s r).1
stored-Unheard f s (ok d) = refl
stored-Unheard f s (err e) = refl

module _ (x : External) where
  insert_execution_steps-Unheard :
      (now : Now) (ids : ℕ → Uuid) (run_id : Uuid) (args : Value) (index : ℕ)
      (steps : List ActivityStep) (s : Server)
      → Unheard s (insert_execution_steps x now ids run_id args index steps s).1
  unfolding insert_execution_steps
  insert_execution_steps-Unheard now ids run_id args index [] s = refl
  insert_execution_steps-Unheard now ids run_id args index (step_def ∷ steps) s =
      let r =
        insert_workflow_step x now.sql (execution_step (ids index) run_id index args step_def)
          s.db in
      let t = stored (internal "Failed to create step") s r in
      let quiet = stored-Unheard (internal "Failed to create step") s r in
      continue_keeps (Unheard s) t.0
        (λ _. insert_execution_steps x now ids run_id args (index + 1) steps) t.1 quiet
        (λ _. insert_execution_steps-Unheard now ids run_id args (index + 1) steps t.1 ∙ quiet)

  -- A run that is started through the Temporal-compatible call sends no event, so the engine learns of it
  -- only by a later event of the run.
  start_workflow_execution-silent :
      (chars : Chars) (now : Now) (run_id : Uuid) (ids : ℕ → Uuid)
      (req : StartWorkflowExecutionRequest) (s : Server)
      → (start_workflow_execution x chars now run_id ids req s).1.events ≡ s.events
  unfolding start_workflow_execution
  start_workflow_execution-silent chars now run_id ids req s =
      let r = insert_workflow x (execution_of run_id req) s.db in
      let t = stored (internal "Failed to create workflow") s r in
      let args = input_json req.input in
      let steps = get_workflow_definition chars (unwrap_or req.workflow_type "") in
      let quiet = stored-Unheard (internal "Failed to create workflow") s r in
      continue_keeps (Unheard s) t.0
        (λ _.
          insert_execution_steps x now ids run_id args 0 steps >> pure (x.uuid_to_string run_id))
        t.1 quiet
        (λ _.
          let u = insert_execution_steps x now ids run_id args 0 steps t.1 in
          let unheard = insert_execution_steps-Unheard now ids run_id args 0 steps t.1 ∙ quiet in
          continue_keeps (Unheard s) u.0 (λ _. pure (x.uuid_to_string run_id)) u.1 unheard
            (λ _. unheard))
