-- ===== src/Db/States.antt =====
-- The states as the texts of their columns: workflow_state_to_str and its inverse, which workflows.rs
-- and activities.rs both have, and activity_state_to_str.
use khronos.Prelude.{String, ◌≡◌, refl, true, arith, ◌==◌, eq_iff, if◌then◌else◌, ◌↔◌, ◌≢◌}
use khronos.Prelude.Result.{Result, ok, err}
use khronos.Core.Workflow.{WorkflowState, pending, running, completed, failed, cancelled}
use khronos.Core.Activity.{ActivityState}
use khronos.Db.Error.{DbError, unknown_state}
use khronos.Db.Schema.{workflow_state_check, step_state_check, activity_state_check}

unfoldable pub workflow_state_to_str : WorkflowState → String
workflow_state_to_str pending = "pending"
workflow_state_to_str running = "running"
workflow_state_to_str completed = "completed"
workflow_state_to_str failed = "failed"
workflow_state_to_str cancelled = "cancelled"

unfoldable pub str_to_workflow_state : String → Result WorkflowState DbError
str_to_workflow_state s =
    if s == "pending"
    then ok pending
    else if s == "running"
    then ok running
    else if s == "completed"
    then ok completed
    else if s == "failed"
    then ok failed
    else if s == "cancelled"
    then ok cancelled
    else err (unknown_state s)

unfoldable pub activity_state_to_str : ActivityState → String
activity_state_to_str ActivityState.pending = "pending"
activity_state_to_str ActivityState.running = "running"
activity_state_to_str ActivityState.completed = "completed"
activity_state_to_str ActivityState.failed = "failed"
activity_state_to_str ActivityState.retried = "retried"

pub str_to_workflow_state-workflow_state_to_str :
    (s : WorkflowState) → str_to_workflow_state (workflow_state_to_str s) ≡ ok s
unfolding workflow_state_to_str str_to_workflow_state
str_to_workflow_state-workflow_state_to_str pending = refl
str_to_workflow_state-workflow_state_to_str _ = refl

pub state_of_text :
    (t : String) (s : WorkflowState) → str_to_workflow_state t ≡ ok s → t ≡ workflow_state_to_str s
unfolding workflow_state_to_str str_to_workflow_state
state_of_text t s h = ground (
  arith,
  eq_iff t "pending",
  eq_iff t "running",
  eq_iff t "completed",
  eq_iff t "failed",
  eq_iff t "cancelled",
)

-- A text is read as a state exactly if it is the text written for that state.
pub str_to_workflow_state_iff :
    (t : String) (s : WorkflowState)
    → (str_to_workflow_state t ≡ ok s) ↔ (t ≡ workflow_state_to_str s)
str_to_workflow_state_iff t s =
    (state_of_text t s, λ e. rw e (str_to_workflow_state-workflow_state_to_str s))

workflow_state_ok : (s : WorkflowState) → workflow_state_check (workflow_state_to_str s) ≡ true
unfolding workflow_state_to_str
workflow_state_ok pending = refl
workflow_state_ok _ = refl

step_state_ok :
    (s : WorkflowState) → (step_state_check (workflow_state_to_str s) ≡ true) ↔ (s ≢ cancelled)
unfolding workflow_state_to_str
step_state_ok cancelled = (λ h. cc, λ h. absurd (h refl))
step_state_ok _ = (λ h e. cc, λ h. refl)

activity_state_ok :
    (s : ActivityState)
    → (activity_state_check (activity_state_to_str s) ≡ true) ↔ (s ≢ ActivityState.retried)
unfolding activity_state_to_str
activity_state_ok ActivityState.retried = (λ h. cc, λ h. absurd (h refl))
activity_state_ok _ = (λ h e. cc, λ h. refl)

-- The CHECK clauses against the enums: `workflows` takes every workflow state, `workflow_steps` every
-- one but `Cancelled`, `activities` every activity state but `Retried`.
pub state_checks :
    ((s : WorkflowState) → workflow_state_check (workflow_state_to_str s) ≡ true)
    × ((s : WorkflowState) → (step_state_check (workflow_state_to_str s) ≡ true) ↔ (s ≢ cancelled))
    × ((s : ActivityState)
        → (activity_state_check (activity_state_to_str s) ≡ true) ↔ (s ≢ ActivityState.retried))
state_checks = (workflow_state_ok, step_state_ok, activity_state_ok)
