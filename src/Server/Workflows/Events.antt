-- ===== src/Server/Workflows/Events.antt =====
-- When a call that starts a run tells the engine of it.
use khronos.Prelude.{ℕ, ◌+◌, String, List, [], ◌∷◌, ◌≡◌, refl, ◌∙◌, Bool-cases, inl, inr}
use khronos.Prelude.Result.{Result, ok, err}
use khronos.Prelude.Exec.{Exec, pure, continue, ◌>>◌}
use khronos.Values.{Uuid, Args}
use khronos.Core.Workflow.{ActivityStep}
use khronos.External.{External, Now}
use khronos.Db.Error.{DbError}
use khronos.Db.Schema.{Db}
use khronos.Db.Workflows.{insert_workflow}
use khronos.Db.Activities.{insert_workflow_step}
use khronos.Server.State.{Server, Status, stored, notify, internal, EngineEvent, workflow_created}
use khronos.Server.Definitions.{Chars, get_workflow_definition}
use khronos.Server.Worker.Attempts.{sent}
use khronos.Server.Workflows.{StartWorkflowRequest, run_of, create_steps, step_of, start_workflow}

-- the channel and its receiver are as they were
abbrev Quiet : Server → Server → Type 0
Quiet s t = (t.events ≡ s.events) × (t.engine_tx ≡ s.engine_tx)

-- the events after a call that announces its run where it succeeds
abbrev pub announced : String → Server → Result String Status → List EngineEvent
announced run_id s (ok id) = (sent (workflow_created run_id) s).events
announced run_id s (err e) = s.events

module _ (x : External) where
  stored-Quiet :
      (f : DbError → Status) (s : Server) (r : Result Db DbError) → Quiet s (stored f s r).1
  stored-Quiet f s (ok db) = (refl, refl)
  stored-Quiet f s (err e) = (refl, refl)

  continue-Quiet :
      {A B : Type 0} (r : Result A Status) (f : A → Exec Server Status B) (s t : Server)
      → Quiet s t
      → ((a : A) → Quiet t (f a t).1)
      → Quiet s (continue r f t).1
  continue-Quiet (ok a) f s t q k = ((k a).0 ∙ q.0, (k a).1 ∙ q.1)
  continue-Quiet (err e) f s t q k = q

  create_steps-Quiet :
      (now : Now) (ids : ℕ → Uuid) (run_id : Uuid) (args : Args) (index : ℕ)
      (steps : List ActivityStep) (s : Server)
      → Quiet s (create_steps x now ids run_id args index steps s).1
  unfolding create_steps
  create_steps-Quiet now ids run_id args index [] s = (refl, refl)
  create_steps-Quiet now ids run_id args index (step_def ∷ steps) s =
      let r =
        insert_workflow_step x now.sql (step_of x (ids index) run_id index args step_def) s.db in
      continue-Quiet (stored (internal "Failed to create step") s r).0 _ s
        (stored (internal "Failed to create step") s r).1 (stored-Quiet _ s r)
        (λ _. create_steps-Quiet now ids run_id args (index + 1) steps _)

  sent-Quiet :
      (event : EngineEvent) (s t : Server)
      → Quiet s t
      → (sent event t).events ≡ (sent event s).events
  sent-Quiet event s t q = elim (Bool-cases s.engine_tx) [
    | inl e ↦ rw (e, q.1 ∙ e, q.0) refl
    | inr e ↦ rw (e, q.1 ∙ e, q.0) refl
  ]

  announced_lem :
      (run_id : String) (s t : Server) (r : Result (Unit {0}) Status)
      → Quiet s t
      → (continue r (λ _. notify (workflow_created run_id) >> pure run_id) t).1.events
        ≡ announced run_id s (continue r (λ _. notify (workflow_created run_id) >> pure run_id) t).0
  announced_lem run_id s t (ok u) q = sent-Quiet (workflow_created run_id) s t q
  announced_lem run_id s t (err e) q = q.0

  -- A call that starts a run tells the engine of it, if there is an engine, exactly if the run and all its
  -- steps were inserted; a call that fails, also after it inserted the run, sends nothing.
  pub start_workflow-events :
      (chars : Chars) (now : Now) (run_id : Uuid) (ids : ℕ → Uuid) (req : StartWorkflowRequest)
      (s : Server)
      → (start_workflow x chars now run_id ids req s).1.events
        ≡ announced (x.uuid_to_string run_id) s (start_workflow x chars now run_id ids req s).0
  unfolding start_workflow
  start_workflow-events chars now run_id ids req s =
      inserted (insert_workflow x (run_of x run_id req) s.db) refl
    where
      inserted :
          (r : Result Db DbError)
          → insert_workflow x (run_of x run_id req) s.db ≡ r
          → (start_workflow x chars now run_id ids req s).1.events
            ≡ announced (x.uuid_to_string run_id) s (start_workflow x chars now run_id ids req s).0
      inserted (err d) e = rw e
      inserted (ok db) e = rw e (
          announced_lem (x.uuid_to_string run_id) s
            (create_steps x now ids run_id req.args 0
              (get_workflow_definition chars req.workflow_name) (record s { db = db })).1
            (create_steps x now ids run_id req.args 0
              (get_workflow_definition chars req.workflow_name) (record s { db = db })).0
            (create_steps-Quiet now ids run_id req.args 0
              (get_workflow_definition chars req.workflow_name) (record s { db = db })))
