-- ===== src/Server/Scheduler/Process.antt =====
-- process_schedule: whether a schedule fires, its overlap policy, and the runs that the policy ends.
use khronos.Prelude.{
  String, Bool, true, false, Option, none, some, List, [], ◌∷◌, ◌==◌, ◌&&◌, ltb, map, if◌then◌else◌,
}
use khronos.Prelude.Result.{ok}
use khronos.Prelude.Exec.{Exec, pure, ◌>>=◌, ◌>>◌}
use khronos.External.{External, Now}
use khronos.Table.{select, find, count}
use khronos.Db.Error.{DbError}
use khronos.Db.Schema.{WorkflowRow, ScheduleRow, Db, has_schedule}
use khronos.Db.Workflows.{cancel_workflow, is_active}
use khronos.Server.State.{Server, db_write, db_read}
use khronos.Server.Definitions.{Chars}
use khronos.Server.Scheduler.Times.{ScheduleInfo, info_of, is_run_of, should_fire}
use khronos.Server.Scheduler.Start.{Firing, start_schedule_workflow}

-- the loop over the ids
unfoldable pub cancel_all : Now → List String → Exec Server DbError (Unit {0})
cancel_all now [] = pure tt
cancel_all now (run_id ∷ ids) = do
  db_write (λ e. e) (cancel_workflow now.sql run_id)
  cancel_all now ids

module _ (x : External) where
  -- `workflow_id LIKE ?1 AND state IN ('pending', 'running')`
  abbrev pub is_active_run : String → WorkflowRow → Bool
  is_active_run schedule_id r = is_run_of x schedule_id r && is_active r

  abbrev pub check_running_workflow : String → Db → Bool
  check_running_workflow schedule_id db = ltb 0 (count (is_active_run schedule_id) db.workflows)

  unfoldable pub terminate_existing : Now → String → Exec Server DbError (Unit {0})
  unfolding cancel_all
  terminate_existing now schedule_id = do
    ids ←
        db_read (λ e. e)
          (λ db. ok (map (λ r. r.run_id) (select (is_active_run schedule_id) db.workflows)))
    cancel_all now ids

  abbrev pub terminate_if : Bool → Now → String → Exec Server DbError (Unit {0})
  terminate_if true now schedule_id = terminate_existing now schedule_id
  terminate_if false now schedule_id = pure tt

  -- from the check of the overlap policy on
  unfoldable pub apply_policy :
      Chars → Firing → String → ScheduleInfo → Exec Server DbError (Unit {0})
  unfolding terminate_existing start_schedule_workflow
  apply_policy chars f schedule_id info = do
    has_running ← db_read (λ e. e) (λ db. ok (check_running_workflow schedule_id db))
    if info.overlap_policy == "skip" && has_running
        then pure tt
        else (terminate_if (info.overlap_policy == "terminate" && has_running) f.now schedule_id
            >> start_schedule_workflow x chars f schedule_id info)

  unfoldable pub process_info :
      Chars → Firing → String → ScheduleInfo → Exec Server DbError (Unit {0})
  unfolding apply_policy
  process_info chars f schedule_id info = do
    fires ← db_read (λ e. e) (should_fire x info f.now.utc)
    if fires then apply_policy chars f schedule_id info else pure tt

  abbrev pub process_row :
      Chars → Firing → String → Option ScheduleRow → Exec Server DbError (Unit {0})
  process_row chars f schedule_id none = pure tt
  process_row chars f schedule_id (some r) = process_info chars f schedule_id (info_of x r)

  unfoldable pub process_schedule : Chars → Firing → String → Exec Server DbError (Unit {0})
  unfolding process_info
  process_schedule chars f schedule_id s =
      process_row chars f schedule_id (find (has_schedule schedule_id) s.db.schedules) s
