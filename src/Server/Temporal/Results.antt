-- ===== src/Server/Temporal/Results.antt =====
-- A result reported through the Temporal-compatible call against khronos.WorkerService.
use khronos.Prelude.{String, true, false, none, some, List, ◌∷◌, ◌≡◌, refl, ap, ◌∙◌, ◌==◌}
use khronos.Prelude.Result.{Result, ok, err}
use khronos.Prelude.Exec.{Exec, continue, pure, ◌>>=◌, ◌>>◌}
use khronos.Values.{Value}
use khronos.External.{External, Now}
use khronos.Db.Error.{DbError}
use khronos.Db.Schema.{Db}
use khronos.Core.Activity.{ActivityState}
use khronos.Core.Workflow.{WorkflowState}
use khronos.Db.Activities.{update_activity_state, update_step_state}
use khronos.Server.State.{
  Server, Status, db_write, db_read, stored, loaded, internal, notify, step_completed,
  find_activity, find_step,
}
use khronos.Server.Worker.Handlers.{parse_result, report_activity_result}
use khronos.Server.Temporal.Tasks.{respond_activity_task_completed}

-- both succeed with one value, or both fail
abbrev Agree : {A : Type 0} → Result A Status → Result A Status → Type 0
Agree (ok a) (ok b) = a ≡ b
Agree (err d) (err e) = Unit
Agree _ _ = ⊥

record SameRun {A : Type 0} (m n : Exec Server Status A) : Type 0 where
  at : (s : Server) → Agree (m s).0 (n s).0 × ((m s).1 ≡ (n s).1)

record SameEnd {A B : Type 0} (m : Exec Server Status A) (n : Exec Server Status B) : Type 0 where
  at : (s : Server) → (m s).1 ≡ (n s).1

module _ {A B C : Type 0} where
  continue_same :
      (f : A → Exec Server Status B) (g : A → Exec Server Status C)
      → ((a : A) → SameEnd (f a) (g a))
      → (q r : Result A Status) (s t : Server) → Agree q r
      → s ≡ t
      → (continue q f s).1 ≡ (continue r g t).1
  continue_same f g same (ok a) (ok b) s t agree e =
      (same a).at s ∙ ap (λ c. (g c s).1) agree ∙ ap (λ u. (g b u).1) e
  continue_same f g same (ok a) (err d) s t agree e = absurd agree
  continue_same f g same (err c) (ok b) s t agree e = absurd agree
  continue_same f g same (err c) (err d) s t agree e = e

  SameEnd-bind :
      (m n : Exec Server Status A) (f : A → Exec Server Status B) (g : A → Exec Server Status C)
      → SameRun m n
      → ((a : A) → SameEnd (f a) (g a))
      → SameEnd (m >>= f) (n >>= g)
  SameEnd-bind m n f g run same = record {
    at = λ s. continue_same f g same (m s).0 (n s).0 (m s).1 (n s).1 (run.at s).0 (run.at s).1;
  }

module _ (f g : DbError → Status) where
  stored_same :
      (s : Server) (r : Result Db DbError)
      → Agree (stored f s r).0 (stored g s r).0 × ((stored f s r).1 ≡ (stored g s r).1)
  stored_same s (ok d) = (refl, refl)
  stored_same s (err e) = (tt, refl)

  loaded_same :
      {A : Type 0} (s : Server) (r : Result A DbError)
      → Agree (loaded f s r).0 (loaded g s r).0 × ((loaded f s r).1 ≡ (loaded g s r).1)
  loaded_same s (ok a) = (refl, refl)
  loaded_same s (err e) = (tt, refl)

  SameRun-db_write : (run : Db → Result Db DbError) → SameRun (db_write f run) (db_write g run)
  SameRun-db_write run = record { at = λ s. stored_same s (run s.db) }

  SameRun-db_read :
      {A : Type 0} (run : Db → Result A DbError) → SameRun (db_read f run) (db_read g run)
  SameRun-db_read run = record { at = λ s. loaded_same s (run s.db) }

module _ (x : External) where
  -- the statements of both calls, with the message of the last one's error
  abbrev complete : {B : Type 0} → String → B → Now → String → Value → Exec Server Status B
  complete message b now id v = do
    db_write (internal "Failed to update activity")
        (update_activity_state x now.sql id ActivityState.completed (some v) none)
    activity ← db_read (internal "Failed to find activity") (find_activity id)
    db_write (internal "Failed to update step")
        (update_step_state x activity.step_id WorkflowState.completed none (some v) none)
    step ← db_read (internal message) (find_step activity.step_id)
    notify (step_completed step.workflow_run_id)
    pure b

  complete_same :
      {B C : Type 0} (m n : String) (b : B) (c : C) (now : Now) (id : String) (v : Value)
      → SameEnd (complete m b now id v) (complete n c now id v)
  complete_same m n b c now id v = SameEnd-bind _ _ _ _ (SameRun-db_write _ _ _) λ _.
      SameEnd-bind _ _ _ _ (SameRun-db_read _ _ (find_activity id)) λ activity.
        SameEnd-bind _ _ _ _ (SameRun-db_write _ _ _) λ _.
          SameEnd-bind _ _ _ _ (SameRun-db_read _ _ (find_step activity.step_id))
            λ step. record { at = λ t. refl }

  -- A result that is the text of a JSON value leaves the same server through both calls, also where one
  -- of their statements fails.
  pub respond_activity_task_completed-report_activity_result :
      (now : Now) (id result : String) (payloads : List String) (s : Server) (v : Value)
      → (result == "") ≡ false
      → x.value_from_str result ≡ some v
      → (respond_activity_task_completed x now id (some (result ∷ payloads)) s).1
        ≡ (report_activity_result x now id result s).1
  unfolding respond_activity_task_completed report_activity_result parse_result find_activity
      find_step
  respond_activity_task_completed-report_activity_result now id result payloads s v full parsed =
      rw (full, parsed)
        ((complete_same "Failed to find workflow_run_id" "Failed to find step" tt true now id v).at
          s)
