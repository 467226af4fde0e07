-- ===== src/Server/Temporal/Queue.antt =====
-- What a poll of a task queue gives.
use khronos.Prelude.{
  String, List, ◌≡◌, refl, true, false, Option, none, some, All, unwrap_or, Bool, if◌then◌else◌,
  ◌+◌,
}
use mathlib.Core.Option
use khronos.Prelude.Result.{ok}
use khronos.Values.{Uuid, as_u32, as_64}
use khronos.Core.Workflow.{WorkflowState, WorkflowStepInstance}
use khronos.External.{External, Now}
use khronos.Table.{find, exists, append_row, find_test, find-update, edit}
use khronos.Table.Keys.{exists-update}
use khronos.Table.Rows.{All-find}
use khronos.Db.Schema.{WorkflowRow, Db, has_activity, has_step, has_run}
use khronos.Db.Workflows.{set_workflow_state}
use khronos.Db.Workflows.Laws.{update_workflow_state_lem}
use khronos.Db.Activities.{get_pending_steps, set_step_state}
use khronos.Db.Activities.Laws.{
  with_step, update_step_state_lem, attempt_row, insert_activity_attempt_lem,
}
use khronos.Db.States.{workflow_state_to_str}
use khronos.Db.Dates.{format_datetime}
use khronos.Server.State.{Server}
use khronos.Server.Worker.Outcomes.{handed_out}
use khronos.Server.Worker.Polling.{Stored}
use khronos.Server.Temporal.Tasks.{
  empty_response, in_queue, namespace_of, response_of, hand_out_task, poll_activity_task_queue,
}

module _ (x : External) where
  namespace_kept :
      (now : Now) (id : Uuid) (step : WorkflowStepInstance) (db : Db)
      → namespace_of x step (handed_out x now id step db) ≡ namespace_of x step db
  namespace_kept now id step db =
      let run_id = x.uuid_to_string step.workflow_run_id in
      let set =
        set_workflow_state (workflow_state_to_str WorkflowState.running) none
          (format_datetime x (some now.utc)) in
      rw (find-update (has_run run_id) (has_run run_id) set (λ r. refl) db.workflows)
        (edited set run_id (find (has_run run_id) db.workflows) (λ r. refl))
    where
      same :
          (b : Bool) (q r : WorkflowRow)
          → q.namespace ≡ r.namespace
          → (if b then q else r).namespace ≡ r.namespace
      same true q r e = e
      same false q r e = refl

      edited :
          (set : WorkflowRow → WorkflowRow) (run_id : String) (o : Option WorkflowRow)
          → ((r : WorkflowRow) → (set r).namespace ≡ r.namespace)
          → unwrap_or
              (Option.map
                (λ (r : WorkflowRow). r.namespace)
                (Option.map (edit (has_run run_id) set) o))
              "default"
            ≡ unwrap_or (Option.map (λ (r : WorkflowRow). r.namespace) o) "default"
      edited set run_id none keeps = refl
      edited set run_id (some r) keeps = same (has_run run_id r) (set r) r (keeps r)

  hand_out_task_lem :
      (now : Now) (id : Uuid) (step : WorkflowStepInstance) (s : Server)
      → exists (has_activity (x.uuid_to_string id)) s.db.activities ≡ false
      → exists (has_step (x.uuid_to_string step.id)) s.db.workflow_steps ≡ true
      → hand_out_task x now id step s ≡ (
        ok (response_of x id step (namespace_of x step (handed_out x now id step s.db))),
        record s { db = handed_out x now id step s.db },
      )
  unfolding hand_out_task
  hand_out_task_lem now id step s fresh there =
      let step_id = x.uuid_to_string step.id in
      let attempt = as_u32 (step.attempt + 1) in
      let started = with_step x step_id WorkflowState.running (some attempt) none s.db none in
      let set =
        set_step_state (workflow_state_to_str WorkflowState.running) (some (as_64 attempt)) none
          (format_datetime x none) in
      rw (
        update_step_state_lem x step_id WorkflowState.running (some attempt) none none s.db
            (λ e. cc),
        insert_activity_attempt_lem now.sql (x.uuid_to_string id) step_id attempt started fresh (
            rw (
              exists-update (has_step step_id) (has_step step_id) set (λ r. refl)
                  s.db.workflow_steps,
              there,
            )),
        update_workflow_state_lem x (x.uuid_to_string step.workflow_run_id) WorkflowState.running
            none (some now.utc)
            (record started {
              activities =
                  append_row (attempt_row now.sql (x.uuid_to_string id) step_id attempt)
                    s.db.activities;
            }),
      )

  -- a poll of a queue, by the step that it finds
  abbrev pub QueueOutcome :
      Now → Uuid → Option String → Server → Option WorkflowStepInstance → Type 0
  QueueOutcome now id queue s none =
      poll_activity_task_queue x now id queue s ≡ (ok empty_response, s)
  QueueOutcome now id queue s (some step) =
      (poll_activity_task_queue x now id queue s ≡ (
        ok (response_of x id step (namespace_of x step s.db)),
        record s { db = handed_out x now id step s.db },
      ))
      × (in_queue x (unwrap_or queue "") s.db step ≡ true)

  queue_outcome :
      (now : Now) (id : Uuid) (queue : Option String) (s : Server)
      (steps : List WorkflowStepInstance)
      → get_pending_steps x now.sql s.db ≡ ok steps
      → exists (has_activity (x.uuid_to_string id)) s.db.activities ≡ false
      → All (Stored x s) steps
      → (found : Option WorkflowStepInstance)
      → find (in_queue x (unwrap_or queue "") s.db) steps ≡ found
      → QueueOutcome now id queue s found
  unfolding poll_activity_task_queue
  queue_outcome now id queue s steps e fresh there none f = rw (e, f)
  queue_outcome now id queue s steps e fresh there (some step) f = (
    rw (
      e,
      f,
      hand_out_task_lem now id step s fresh
          (All-find (Stored x s) (in_queue x (unwrap_or queue "") s.db) steps {r = step} there f),
      namespace_kept now id step s.db,
    ),
    find_test (in_queue x (unwrap_or queue "") s.db) steps {r = step} f,
  )

  -- A poll of a task queue finds the first due step whose run has that queue, given that its query
  -- succeeds, the activity's id is new and the steps that the query gave are found by the text of their ids.
  -- It answers no task and changes nothing if there is none; else it leaves the database that handing the step
  -- out to a worker leaves, and the answer has the step's activity and the namespace of its run.
  pub poll_activity_task_queue_lem :
      (now : Now) (id : Uuid) (queue : Option String) (s : Server)
      (steps : List WorkflowStepInstance)
      → get_pending_steps x now.sql s.db ≡ ok steps
      → exists (has_activity (x.uuid_to_string id)) s.db.activities ≡ false
      → All (Stored x s) steps
      → QueueOutcome now id queue s (find (in_queue x (unwrap_or queue "") s.db) steps)
  poll_activity_task_queue_lem now id queue s steps e fresh there =
      queue_outcome now id queue s steps e fresh there _ refl
