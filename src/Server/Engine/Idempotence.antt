-- ===== src/Server/Engine/Idempotence.antt =====
-- A run that is processed twice.
use khronos.Prelude.{
  String, false, ◌≡◌, refl, List, [], ◌∷◌, Option, none, some, arith, ap, ◌∙◌, ◌==◌, map,
}
use khronos.Prelude.Result.{ok}
use khronos.External.{External, Now}
use khronos.Table.{update}
use khronos.Db.Schema.{WorkflowRow, Db, has_run}
use khronos.Db.States.{workflow_state_to_str}
use khronos.Db.Dates.{format_datetime}
use khronos.Db.Workflows.{set_workflow_state}
use khronos.Server.State.{Server}
use khronos.Server.Engine.Process.{process_single_workflow, is_starting, start_row}
use khronos.Server.Engine.Outcome.{
  Verdict, goes_on, ends_failed, ends_completed, verdict, settle, started,
  process_single_workflow_lem,
}

-- a run's row but for the time at which it ended
abbrev pub timeless : WorkflowRow → WorkflowRow
timeless r = record r { completed_at = none }

-- rows that have ended neither start nor change their state again
ended_twice :
    (run_id now later state : String) (at last : Option String) (rows : List WorkflowRow)
    → (state == "pending") ≡ false
    → map timeless (
        update (has_run run_id) (set_workflow_state state none last) (
          update (is_starting run_id) (start_row later) (
            update
              (has_run run_id)
              (set_workflow_state state none at)
              (update (is_starting run_id) (start_row now) rows))))
      ≡ map timeless (
          update
            (has_run run_id)
            (set_workflow_state state none at)
            (update (is_starting run_id) (start_row now) rows))
unfolding update
ended_twice run_id now later state at last [] ends = refl
ended_twice run_id now later state at last (r ∷ rows) ends =
    ground (arith, ended_twice run_id now later state at last rows)

started_twice :
    (run_id now later : String) (rows : List WorkflowRow)
    → update
        (is_starting run_id)
        (start_row later)
        (update (is_starting run_id) (start_row now) rows)
      ≡ update (is_starting run_id) (start_row now) rows
unfolding update
started_twice run_id now later [] = refl
started_twice run_id now later (r ∷ rows) = ground (arith, started_twice run_id now later rows)

module _ (x : External) where
  settled_twice :
      (now later : Now) (run_id : String) (v : Verdict) (db : Db)
      → map timeless
          (settle x later run_id v
            (started x later run_id (settle x now run_id v (started x now run_id db)))).workflows
        ≡ map timeless (settle x now run_id v (started x now run_id db)).workflows
  unfolding workflow_state_to_str
  settled_twice now later run_id goes_on db =
      ap (map timeless) (started_twice run_id now.sql later.sql db.workflows)
  settled_twice now later run_id ends_failed db =
      ended_twice run_id now.sql later.sql "failed" (format_datetime x (some now.utc))
        (format_datetime x (some later.utc)) db.workflows refl
  settled_twice now later run_id ends_completed db =
      ended_twice run_id now.sql later.sql "completed" (format_datetime x (some now.utc))
        (format_datetime x (some later.utc)) db.workflows refl

  settle_only :
      (now : Now) (run_id : String) (v : Verdict) (db : Db)
      → settle x now run_id v (started x now run_id db)
        ≡ record db { workflows = (settle x now run_id v (started x now run_id db)).workflows }
  settle_only now run_id goes_on db = refl
  settle_only now run_id ends_failed db = refl
  settle_only now run_id ends_completed db = refl

  -- Processing a run a second time, by any later or earlier reading of the clock, succeeds and changes at most the
  -- table of runs, and there no column but the time at which a run ended: a second processing does not start a run
  -- again and changes no run's state.
  pub process_single_workflow_twice :
      (now later : Now) (run_id : String) (s : Server)
      → let once = (process_single_workflow x now run_id s).1 in
        let twice = process_single_workflow x later run_id once in
        (twice.0 ≡ ok tt)
        × (map timeless twice.1.db.workflows ≡ map timeless once.db.workflows)
        × (twice.1 ≡ record once { db = record once.db { workflows = twice.1.db.workflows } })
  process_single_workflow_twice now later run_id s =
      let v : Verdict = verdict run_id s.db.workflow_steps in
      let db1 : Db = settle x now run_id v (started x now run_id s.db) in
      let steps : db1.workflow_steps ≡ s.db.workflow_steps =
        ap (λ (db : Db). db.workflow_steps) (settle_only now run_id v s.db) in
      let second : process_single_workflow x later run_id (record s { db = db1 })
          ≡ (ok tt, record s { db = settle x later run_id v (started x later run_id db1) }) =
        process_single_workflow_lem x later run_id (record s { db = db1 })
        ∙ ap
            (λ rows. (
              ok tt,
              record s {
                db = settle x later run_id (verdict run_id rows) (started x later run_id db1);
              },
            ))
            steps in
      rw (process_single_workflow_lem x now run_id s, second)
        (
          refl,
          settled_twice now later run_id v s.db,
          ap (λ db. record s { db = db }) (settle_only later run_id v db1),
        )
