-- ===== src/Server/Workflows/Log.antt =====
-- The statements of the calls of WorkflowService, also of those that fail halfway.
use khronos.Prelude.{ℕ, ◌+◌, String, List, [], ◌∷◌, All, refl}
use khronos.Values.{Uuid, Args}
use khronos.Core.Workflow.{ActivityStep}
use khronos.External.{External, Now}
use khronos.Server.Log.Operations.{
  insert_workflow-IsStatement, insert_workflow_step-IsStatement, cancel_workflow-IsStatement,
}
use khronos.Server.Log.{IsLogged, log_rules, IsLogged-pure, IsLogged-bind, IsLogged-db_write}
use khronos.Server.Log.Steps.{HasBuiltIn, step_args-StepArgs, get_workflow_definition-HasBuiltIn}
use khronos.Server.Definitions.{Chars}
use khronos.Server.Workflows.{
  StartWorkflowRequest, create_steps, step_of, start_workflow, cancel_workflow_call,
}

module _ (x : External) where
  create_steps-IsLogged :
      (now : Now) (ids : ℕ → Uuid) (run_id : Uuid) (args : Args) (index : ℕ)
      (steps : List ActivityStep)
      → All HasBuiltIn steps
      → IsLogged x (create_steps x now ids run_id args index steps)
  unfolding create_steps
  create_steps-IsLogged now ids run_id args index [] built = IsLogged-pure _
  create_steps-IsLogged now ids run_id args index (step_def ∷ steps) built =
      IsLogged-bind _ _
        (IsLogged-db_write _ _ (
          insert_workflow_step-IsStatement x now.sql
            (step_of x (ids index) run_id index args step_def)
            (record {
              policy = built.0;
              args = step_args-StepArgs x args step_def.args_template;
              is_pending = refl;
              no_result_yet = refl;
              no_retry = refl;
            })))
        (λ _. create_steps-IsLogged now ids run_id args (index + 1) steps built.1)

  pub start_workflow-IsLogged :
      (chars : Chars) (now : Now) (run_id : Uuid) (ids : ℕ → Uuid) (req : StartWorkflowRequest)
      → IsLogged x (start_workflow x chars now run_id ids req)
  unfolding start_workflow
  start_workflow-IsLogged chars now run_id ids req = search (
    log_rules, create_steps-IsLogged, insert_workflow-IsStatement,
    get_workflow_definition-HasBuiltIn,
  )

  pub cancel_workflow_call-IsLogged :
      (now : Now) (run_id : String) → IsLogged x (cancel_workflow_call now run_id)
  unfolding cancel_workflow_call
  cancel_workflow_call-IsLogged now run_id = search (log_rules, cancel_workflow-IsStatement)
