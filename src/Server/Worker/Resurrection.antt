-- ===== src/Server/Worker/Resurrection.antt =====
-- A poll after a cancellation: `get_pending_steps` reads the table of steps alone.
use khronos.Prelude.{String, ◌≡◌, refl, true, false, some, none, List}
use khronos.Prelude.Result.{ok}
use khronos.Values.{Uuid}
use khronos.Core.Workflow.{WorkflowStepInstance}
use khronos.External.{External, Now}
use khronos.Table.{find, exists, find-update_same}
use khronos.Table.Keys.{HasKey}
use khronos.Db.Schema.{WorkflowRow, Db, has_run, has_step, has_activity}
use khronos.Db.States.{workflow_state_to_str}
use khronos.Db.Dates.{format_datetime}
use khronos.Db.Workflows.{is_active, set_workflow_state, cancel_row}
use khronos.Db.Workflows.Laws.{cancelled, cancel_workflow_active, find-cancelled}
use khronos.Db.Activities.{get_pending_steps}
use khronos.Server.State.{Server}
use khronos.Server.Workflows.{cancel_workflow_call}
use khronos.Server.Worker.Handlers.{PollActivityRequest, handles, poll_activity, task_of}
use khronos.Server.Worker.Outcomes.{handed_out, hand_out_lem}

module _ (x : External) where
  -- the id of the step's run as the tables have it
  abbrev pub run_text : WorkflowStepInstance → String
  run_text step = x.uuid_to_string step.workflow_run_id

  find-handed_out :
      (now : Now) (id : Uuid) (step : WorkflowStepInstance) (db : Db) (r : WorkflowRow)
      → find (has_run (run_text step)) db.workflows ≡ some r
      → (r' : WorkflowRow) × (find (has_run (run_text step)) (handed_out x now id step db).workflows
          ≡ some r')
        × (r'.state ≡ "running")
  unfolding workflow_state_to_str
  find-handed_out now id step db r e = (
    set_workflow_state "running" none (format_datetime x (some now.utc)) r,
    find-update_same (has_run (run_text step))
        (set_workflow_state "running" none (format_datetime x (some now.utc))) (λ r. refl)
        db.workflows {r = r} e,
    refl,
  )

  cancel_workflow_call_active :
      (at : Now) (run_id : String) (s : Server) (r : WorkflowRow)
      → HasKey (λ r. r.run_id) s.db.workflows
      → find (has_run run_id) s.db.workflows ≡ some r
      → is_active r ≡ true
      → cancel_workflow_call at run_id s ≡ (ok true, record s { db = cancelled at.sql run_id s.db })
  unfolding cancel_workflow_call
  cancel_workflow_call_active at run_id s r keys e on =
      rw (cancel_workflow_active at.sql run_id s.db r keys e on)

  poll_cancelled :
      (at now : Now) (id : Uuid) (run_id : String) (req : PollActivityRequest) (s : Server)
      (steps : List WorkflowStepInstance) (step : WorkflowStepInstance)
      → get_pending_steps x now.sql s.db ≡ ok steps
      → find (handles req.activity_types) steps ≡ some step
      → exists (has_activity (x.uuid_to_string id)) s.db.activities ≡ false
      → exists (has_step (x.uuid_to_string step.id)) s.db.workflow_steps ≡ true
      → let after = record s { db = cancelled at.sql run_id s.db } in
        poll_activity x now id req after ≡ (
          ok (record { task = some (task_of x id step); has_task = true }),
          record after { db = handed_out x now id step after.db },
        )
  unfolding poll_activity get_pending_steps
  poll_cancelled at now id run_id req s steps step e f fresh there =
      rw (e, f)
        (hand_out_lem x now id step (record s { db = cancelled at.sql run_id s.db }) fresh there)

  -- Where run ids are unique, a run that is pending or running is cancelled, and a later poll's query, on the
  -- tables before the cancellation, gives a step of that run that the worker has a type for and that is the
  -- first such: the cancellation answers true and the run's row has the state `cancelled`; the poll after it
  -- answers that step's task all the same, and the run's row has the state `running` again. The activity's id
  -- is new and the step's row is there.
  pub cancel_workflow_call-poll_activity :
      (at now : Now) (id : Uuid) (req : PollActivityRequest) (s : Server) (r : WorkflowRow)
      (steps : List WorkflowStepInstance) (step : WorkflowStepInstance)
      → HasKey (λ r. r.run_id) s.db.workflows
      → find (has_run (run_text step)) s.db.workflows ≡ some r
      → is_active r ≡ true
      → get_pending_steps x now.sql s.db ≡ ok steps
      → find (handles req.activity_types) steps ≡ some step
      → exists (has_activity (x.uuid_to_string id)) s.db.activities ≡ false
      → exists (has_step (x.uuid_to_string step.id)) s.db.workflow_steps ≡ true
      → ((cancel_workflow_call at (run_text step) s).0 ≡ ok true)
        × ((w : WorkflowRow) × (find
                (has_run (run_text step))
                (cancel_workflow_call at (run_text step) s).1.db.workflows
              ≡ some w)
            × (w.state ≡ "cancelled"))
        × ((poll_activity x now id req (cancel_workflow_call at (run_text step) s).1).0
            ≡ ok (record { task = some (task_of x id step); has_task = true }))
        × ((w : WorkflowRow) × (find
                (has_run (run_text step))
                (poll_activity x now id req
                  (cancel_workflow_call at (run_text step) s).1).1.db.workflows
              ≡ some w)
            × (w.state ≡ "running"))
  cancel_workflow_call-poll_activity at now id req s r steps step keys e on q f fresh there =
      let found = find-cancelled at.sql (run_text step) s.db r e on in
      rw
        (
          cancel_workflow_call_active at (run_text step) s r keys e on,
          poll_cancelled at now id (run_text step) req s steps step q f fresh there,
        )
        (
          refl,
          (_, found, refl),
          refl,
          find-handed_out now id step (cancelled at.sql (run_text step) s.db) (cancel_row at.sql r)
              found,
        )
