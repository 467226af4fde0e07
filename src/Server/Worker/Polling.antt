-- ===== src/Server/Worker/Polling.antt =====
-- What a poll gives a worker.
use khronos.Prelude.{List, ◌≡◌, refl, true, false, Option, none, some, All}
use khronos.Prelude.Result.{ok}
use khronos.Values.{Uuid}
use khronos.Core.Workflow.{WorkflowStepInstance}
use khronos.External.{External, Now}
use khronos.Table.{find, exists}
use khronos.Table.Rows.{All-find}
use khronos.Db.Schema.{has_activity, has_step}
use khronos.Db.Activities.{get_pending_steps}
use khronos.Server.State.{Server}
use khronos.Server.Worker.Handlers.{PollActivityRequest, poll_activity, handles, no_task, task_of}
use khronos.Server.Worker.Outcomes.{handed_out, hand_out_lem}

module _ (x : External) where
  -- a poll, by the step that it finds
  abbrev pub PollOutcome :
      Now → Uuid → PollActivityRequest → Server → Option WorkflowStepInstance → Type 0
  PollOutcome now id req s none = poll_activity x now id req s ≡ (ok no_task, s)
  PollOutcome now id req s (some step) = poll_activity x now id req s ≡ (
    ok (record { task = some (task_of x id step); has_task = true }),
    record s { db = handed_out x now id step s.db },
  )

  -- the row of a step that the query gave
  abbrev pub Stored : Server → WorkflowStepInstance → Type 0
  Stored s step = exists (has_step (x.uuid_to_string step.id)) s.db.workflow_steps ≡ true

  poll_outcome :
      (now : Now) (id : Uuid) (req : PollActivityRequest) (s : Server)
      (steps : List WorkflowStepInstance)
      → get_pending_steps x now.sql s.db ≡ ok steps
      → exists (has_activity (x.uuid_to_string id)) s.db.activities ≡ false
      → All (Stored s) steps
      → (found : Option WorkflowStepInstance) → find (handles req.activity_types) steps ≡ found
      → PollOutcome now id req s found
  unfolding poll_activity
  poll_outcome now id req s steps e fresh there none f = rw (e, f)
  poll_outcome now id req s steps e fresh there (some step) f =
      rw (e, f)
        (hand_out_lem x now id step s fresh
          (All-find (Stored s) (handles req.activity_types) steps {r = step} there f))

  -- A poll finds the first due step that the worker has a type for, whatever the state of the run and of the
  -- run's other steps, given that its query succeeds, the activity's id is new and the steps that the query
  -- gave are found by the text of their ids. It answers no task and changes nothing if there is none; else the
  -- step is running at its next attempt, a running activity records that attempt, the step's run is running, and
  -- the answer is the task.
  pub poll_activity_lem :
      (now : Now) (id : Uuid) (req : PollActivityRequest) (s : Server)
      (steps : List WorkflowStepInstance)
      → get_pending_steps x now.sql s.db ≡ ok steps
      → exists (has_activity (x.uuid_to_string id)) s.db.activities ≡ false
      → All (Stored s) steps
      → PollOutcome now id req s (find (handles req.activity_types) steps)
  poll_activity_lem now id req s steps e fresh there =
      poll_outcome now id req s steps e fresh there _ refl
