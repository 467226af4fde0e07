-- ===== src/Server/Workflows.antt =====
-- WorkflowService of crates/server/src/grpc.rs. The fresh UUIDs of a call are arguments: the run's, and a
-- step's by its index.
pub mod Log
pub mod Events
use khronos.Prelude.{
  ℕ, ◌+◌, ◌-◌, String, Bool, true, false, Option, none, some, List, [], ◌∷◌, ◌==◌, eqb, text_leb,
  unwrap_or, map, if◌then◌else◌,
}
use mathlib.Core.Option
use Prim.Native.String.{◌++◌}
use khronos.Prelude.Result.{Result, ok, ok_or}
use khronos.Prelude.Exec.{Exec, pure, lift, ◌>>=◌, ◌>>◌}
use khronos.Values.{Value, object, end, Uuid, Args}
use khronos.Core.Schedule.{Timeouts, default_timeouts}
use khronos.Core.Workflow.{WorkflowState, WorkflowInstance, WorkflowStepInstance, ActivityStep}
use khronos.External.{External, Now}
use khronos.Db.States.{workflow_state_to_str}
use khronos.Db.Workflows.{insert_workflow, get_workflow, list_workflows, cancel_workflow}
use khronos.Db.Activities.{insert_workflow_step}
use khronos.Server.State.{
  Server, Status, internal, not_found, workflow_created, db_write, db_read, notify,
}
use khronos.Server.Definitions.{Chars, get_workflow_definition}
use khronos.Server.Worker.Handlers.{object_args}

-- the message Timeouts: 0 stands for none
pub record TimeoutsMessage : Type 0 where
  pub execution_timeout_secs : ℕ
  pub run_timeout_secs : ℕ
  pub task_timeout_secs : ℕ

pub record StartWorkflowRequest : Type 0 where
  pub workflow_name : String
  pub args : Args  -- the map in the order that its iterator gives
  pub workflow_id : String
  pub task_queue : String
  pub timeouts : Option TimeoutsMessage
  pub namespace : String

pub record WorkflowInfo : Type 0 where
  pub workflow_run_id : String
  pub workflow_id : String
  pub name : String
  pub state : String
  pub args : Args
  pub result_json : String
  pub started_at : String
  pub completed_at : String

abbrev pub or_default : String → String
or_default s = if s == "" then "default" else s

abbrev nonzero : ℕ → Option ℕ
nonzero n = if eqb n 0 then none else some n

abbrev pub timeouts_of : Option TimeoutsMessage → Timeouts
timeouts_of none = default_timeouts
timeouts_of (some t) = record {
  execution_timeout_secs = nonzero t.execution_timeout_secs;
  run_timeout_secs = nonzero t.run_timeout_secs;
  task_timeout_secs = nonzero t.task_timeout_secs;
}

-- `chars().take(n).collect()`
abbrev pub take_chars : ℕ → String → String
take_chars n String.[] = String.[]
take_chars n (String.◌∷◌ c s) =
    let rest = take_chars (n - 1) s in if eqb n 0 then String.[] else String.◌∷◌ c rest

-- `BTreeMap::insert`: the keys are in order, and a key that is there gets the new value
abbrev pub btree_insert : String → String → Args → Args
btree_insert k v [] = (k, v) ∷ []
btree_insert k v ((j, w) ∷ args) =
    let rest = btree_insert k v args in
    if k == j then (k, v) ∷ args else if text_leb k j then (k, v) ∷ (j, w) ∷ args else (j, w) ∷ rest

-- the arguments of the run, with the step's template over them
abbrev pub insert_all : Args → Args → Args
insert_all [] merged = merged
insert_all ((k, v) ∷ args) merged = insert_all args (btree_insert k v merged)

module _ (x : External) where
  abbrev pub run_args : Args → Value
  run_args [] = object end
  run_args args = x.map_from_iter args

  abbrev pub step_args : Args → Args → Value
  step_args [] template = object end
  step_args args template = x.map_from_iter (insert_all template (insert_all args []))

  abbrev pub run_of : Uuid → StartWorkflowRequest → WorkflowInstance
  run_of run_id req = record {
    run_id = run_id;
    workflow_id =
        if req.workflow_id == ""
        then req.workflow_name ++ "-" ++ take_chars 8 (x.uuid_to_string run_id)
        else req.workflow_id;
    name = req.workflow_name;
    task_queue = or_default req.task_queue;
    state = WorkflowState.pending;
    args_json = run_args req.args;
    result_json = none;
    timeouts = timeouts_of req.timeouts;
    started_at = none;
    completed_at = none;
    namespace = or_default req.namespace;
  }

  abbrev pub step_of : Uuid → Uuid → ℕ → Args → ActivityStep → WorkflowStepInstance
  step_of id run_id index args step_def = record {
    id = id;
    workflow_run_id = run_id;
    step_index = index;
    activity_name = step_def.activity_name;
    args_json = step_args args step_def.args_template;
    retry_policy = step_def.retry_policy;
    timeout_secs = step_def.timeout_secs;
    heartbeat_timeout_secs = step_def.heartbeat_timeout_secs;
    state = WorkflowState.pending;
    attempt = 0;
    result_json = none;
    next_retry_at = none;
  }

  -- the loop over the definition's steps; `ids` gives a step's fresh UUID by its index
  unfoldable pub create_steps :
      Now → (ℕ → Uuid) → Uuid → Args → ℕ → List ActivityStep → Exec Server Status (Unit {0})
  create_steps now ids run_id args index [] = pure tt
  create_steps now ids run_id args index (step_def ∷ steps) = do
    db_write (internal "Failed to create step")
        (insert_workflow_step x now.sql (step_of (ids index) run_id index args step_def))
    create_steps now ids run_id args (index + 1) steps

  unfoldable pub start_workflow :
      Chars → Now → Uuid → (ℕ → Uuid) → StartWorkflowRequest → Exec Server Status String
  unfolding create_steps
  start_workflow chars now run_id ids req = do
    db_write (internal "Failed to create workflow") (insert_workflow x (run_of run_id req))
    create_steps now ids run_id req.args 0 (get_workflow_definition chars req.workflow_name)
    notify (workflow_created (x.uuid_to_string run_id))
    pure (x.uuid_to_string run_id)

  unfoldable pub workflow_info_to_proto : WorkflowInstance → WorkflowInfo
  workflow_info_to_proto wf = record {
    workflow_run_id = x.uuid_to_string wf.run_id;
    workflow_id = wf.workflow_id;
    name = wf.name;
    state = workflow_state_to_str wf.state;
    args = object_args wf.args_json;
    result_json = unwrap_or (Option.map x.value_display wf.result_json) "";
    started_at = unwrap_or (Option.map x.format wf.started_at) "";
    completed_at = unwrap_or (Option.map x.format wf.completed_at) "";
  }

  unfoldable pub get_workflow_call : String → Exec Server Status WorkflowInfo
  unfolding workflow_info_to_proto
  get_workflow_call run_id = do
    found ← db_read (internal "Failed to get workflow") (get_workflow x run_id)
    workflow ← lift (ok_or found (not_found "Workflow not found"))
    pure (workflow_info_to_proto workflow)

  unfoldable pub list_workflows_call : String → Exec Server Status (List WorkflowInfo)
  unfolding workflow_info_to_proto
  list_workflows_call namespace = do
    workflows ←
        db_read (internal "Failed to list workflows") (list_workflows x (or_default namespace) none)
    pure (map workflow_info_to_proto workflows)

unfoldable pub cancel_workflow_call : Now → String → Exec Server Status Bool
cancel_workflow_call now run_id = do
  db_write (internal "Failed to cancel workflow") (cancel_workflow now.sql run_id)
  pure true
