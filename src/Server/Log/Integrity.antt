-- ===== src/Server/Log/Integrity.antt =====
-- Every statement keeps the integrity of the database.
use khronos.Prelude.{String, refl}
use mathlib.Core.Path.{subst}
use khronos.Prelude.Result.{ok-injective}
use khronos.External.{External}
use khronos.Db.Schema.{has_step, Db}
use khronos.Db.Integrity.{IsValid, KeepsValid, runs_updated, steps_updated}
use khronos.Db.Integrity.Rows.{insert_schedule_row-KeepsValid}
use khronos.Db.Integrity.Operations.{
  insert_workflow-KeepsValid, insert_workflow_step-KeepsValid, update_workflow_state-KeepsValid,
  update_step_state-KeepsValid, insert_activity_attempt-KeepsValid,
  update_activity_state-KeepsValid, heartbeat_update-KeepsValid, cancel_workflow-KeepsValid,
}
use khronos.Db.Integrity.Schedules.{
  insert_schedule-KeepsValid, update_schedule_spec-KeepsValid, delete_schedule-IsValid,
}
use khronos.Server.Engine.Process.{start_workflow_row, is_starting, start_row}
use khronos.Server.Engine.Handlers.{reset_step, reset_row}
use khronos.Server.Log.{Log, untouched, ran}
use khronos.Server.Log.Statements.{
  Statement, workflow_inserted, step_inserted, workflow_updated, step_updated, activity_inserted,
  activity_updated, heard, run_cancelled, run_started, step_reset, schedule_inserted,
  schedule_row_inserted, schedule_updated, schedule_deleted,
}

start_workflow_row-KeepsValid : (now run_id : String) → KeepsValid (start_workflow_row now run_id)
unfolding start_workflow_row
start_workflow_row-KeepsValid now run_id = record {
  at = λ db {db' = d} v h.
      subst IsValid (ok-injective h)
        (runs_updated db v (is_starting run_id) (start_row now) (λ r. refl) (λ r _ _. refl));
}

reset_step-KeepsValid : (x : External) (step_id : String) → KeepsValid (reset_step x step_id)
unfolding reset_step
reset_step-KeepsValid x step_id = record {
  at = λ db {db' = d} v h.
      subst IsValid (ok-injective h)
        (steps_updated db v (has_step step_id) reset_row (λ r. refl) (λ r. refl) (λ r _ _. refl));
}

module _ (x : External) where
  Statement-IsValid : (db db' : Db) → Statement x db db' → IsValid db → IsValid db'
  Statement-IsValid db d (workflow_inserted wf h) v =
      (insert_workflow-KeepsValid x wf).at db {db' = d} v h
  Statement-IsValid db d (step_inserted now step fresh h) v =
      (insert_workflow_step-KeepsValid x now step).at db {db' = d} v h
  Statement-IsValid db d (workflow_updated run_id state value at h) v =
      (update_workflow_state-KeepsValid x run_id state value at).at db {db' = d} v h
  Statement-IsValid db d (step_updated step_id state attempt value at stored h) v =
      (update_step_state-KeepsValid x step_id state attempt value at).at db {db' = d} v h
  Statement-IsValid db d (activity_inserted now id step_id attempt h) v =
      (insert_activity_attempt-KeepsValid now id step_id attempt).at db {db' = d} v h
  Statement-IsValid db d (activity_updated now id state value message h) v =
      (update_activity_state-KeepsValid x now id state value message).at db {db' = d} v h
  Statement-IsValid db d (heard now id h) v =
      (heartbeat_update-KeepsValid now id).at db {db' = d} v h
  Statement-IsValid db d (run_cancelled now run_id h) v =
      (cancel_workflow-KeepsValid now run_id).at db {db' = d} v h
  Statement-IsValid db d (run_started now run_id h) v =
      (start_workflow_row-KeepsValid now run_id).at db {db' = d} v h
  Statement-IsValid db d (step_reset step_id h) v =
      (reset_step-KeepsValid x step_id).at db {db' = d} v h
  Statement-IsValid db d (schedule_inserted now schedule h) v =
      (insert_schedule-KeepsValid x now schedule).at db {db' = d} v h
  Statement-IsValid db d (schedule_row_inserted r h) v =
      (insert_schedule_row-KeepsValid r).at db {db' = d} v h
  Statement-IsValid db d (schedule_updated now id namespace schedule h) v =
      (update_schedule_spec-KeepsValid x now id namespace schedule).at db {db' = d} v h
  Statement-IsValid db d (schedule_deleted id namespace h) v =
      subst IsValid h (delete_schedule-IsValid id namespace db v)

  pub Log-IsValid : (db : Db) {db' : Db} → Log x db db' → IsValid db → IsValid db'
  Log-IsValid db untouched v = v
  Log-IsValid db (ran before after log last) v =
      Statement-IsValid before after last (Log-IsValid db log v)
