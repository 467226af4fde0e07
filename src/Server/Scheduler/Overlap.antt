-- ===== src/Server/Scheduler/Overlap.antt =====
-- How many active runs the overlap policies leave a schedule.
use khronos.Prelude.{
  ℕ, ◌+◌, ◌≤◌, String, Bool, true, false, some, List, [], ◌∷◌, ◌≡◌, refl, sym, ap, ◌∙◌, ◌⊎◌, inl,
  inr, arith, Bool-cases, if◌then◌else◌,
}
use khronos.Prelude.Result.{Result, ok, err, ◌>>=◌, >>=-eq-ok, ok-injective}
use khronos.Prelude.Exec.{continue_keeps}
use khronos.Core.Workflow.{ActivityStep}
use khronos.External.{External}
use khronos.Table.{find, count, append_row}
use khronos.Table.Keys.{HasKey}
use khronos.Db.Error.{DbError}
use khronos.Db.Schema.{
  WorkflowRow, ScheduleRow, Db, has_schedule, insert_workflow_row, insert_step_row, StepRow,
}
use khronos.Db.Workflows.{insert_workflow, workflow_to_row}
use khronos.Db.Activities.{insert_workflow_step, step_to_row}
use khronos.Server.State.{Server, stored, EngineEvent, workflow_created, notify}
use khronos.Server.Definitions.{Chars}
use khronos.Server.Scheduler.Times.{ScheduleInfo, info_of, should_fire}
use khronos.Server.Scheduler.Start.{
  Firing, scheduled_run, scheduled_step, insert_steps, start_schedule_workflow,
  get_workflow_definition,
}
use khronos.Server.Scheduler.Process.{
  is_active_run, process_schedule, process_info, apply_policy, check_running_workflow,
}
use khronos.Server.Scheduler.Termination.{by_run, terminate_existing_lem}
use khronos.Server.Scheduler.Process.{terminate_existing}

if_ok : (b : Bool) {a d : Db} (e : DbError) → (if b then ok a else err e) ≡ ok d → a ≡ d
if_ok true e h = ok-injective h
if_ok false e h = cc

insert_step_row_runs :
    (r : StepRow) (db d : Db) → insert_step_row r db ≡ ok d → d.workflows ≡ db.workflows
unfolding insert_step_row
insert_step_row_runs r db d h = sym (ap (λ (e : Db). e.workflows) (if_ok _ _ h))

insert_workflow_row_runs :
    (r : WorkflowRow) (db d : Db)
    → insert_workflow_row r db ≡ ok d
    → d.workflows ≡ append_row r db.workflows
unfolding insert_workflow_row
insert_workflow_row_runs r db d h = sym (ap (λ (e : Db). e.workflows) (if_ok _ _ h))

count-append_row :
    (p : WorkflowRow → Bool) (r : WorkflowRow) (rows : List WorkflowRow)
    → count p (append_row r rows) ≤ count p rows + 1
unfolding count append_row
count-append_row p r [] = ground arith
count-append_row p r (y ∷ rows) = ground (arith, count-append_row p r rows)

abbrev SameRuns : Server → Server → Type 0
SameRuns s t = t.db.workflows ≡ s.db.workflows

stored_runs :
    (run : Result Db DbError) (s : Server)
    → ((d : Db) → run ≡ ok d → d.workflows ≡ s.db.workflows)
    → SameRuns s (stored (λ e. e) s run).1
stored_runs (ok d) s same = same d refl
stored_runs (err e) s same = refl

notify_runs : (event : EngineEvent) (s : Server) → SameRuns s (notify {E = DbError} event s).1
notify_runs event s = elim (Bool-cases s.engine_tx) [ inl e ↦ rw e refl | inr e ↦ rw e refl ]

module _ (x : External) (chars : Chars) (f : Firing) where
  insert_steps_runs :
      (job_id : String) (index : ℕ) (steps : List ActivityStep) (s : Server)
      → SameRuns s (insert_steps x f job_id index steps s).1
  unfolding insert_steps insert_workflow_step
  insert_steps_runs job_id index [] s = refl
  insert_steps_runs job_id index (step_def ∷ steps) s =
      let step = scheduled_step x f index job_id step_def in
      let row = step_to_row x f.now.sql step in
      let run = insert_workflow_step x f.now.sql step s.db in
      let same : SameRuns s (stored (λ e. e) s run).1 = stored_runs run s (λ d h.
        let (v, e, _) = >>=-eq-ok row (λ r. insert_step_row r s.db) h in
        insert_step_row_runs v s.db d e) in
      continue_keeps (SameRuns s) (stored (λ e. e) s run).0 _ (stored (λ e. e) s run).1 same
        (λ _. insert_steps_runs job_id (index + 1) steps (stored (λ e. e) s run).1 ∙ same)

  -- a schedule that starts a run adds one at most, also where it fails
  start_runs :
      (id : String) (info : ScheduleInfo) (p : WorkflowRow → Bool) (s : Server)
      → count p (start_schedule_workflow x chars f id info s).1.db.workflows
        ≤ count p s.db.workflows + 1
  unfolding start_schedule_workflow insert_workflow
  start_runs id info p s = inserted (insert_workflow x (scheduled_run x f id info) s.db) refl
    where
      added :
          (d : Db)
          → insert_workflow x (scheduled_run x f id info) s.db ≡ ok d
          → (workflow_to_row x (scheduled_run x f id info) >>= λ r. insert_workflow_row r s.db)
            ≡ ok d
      added d e = e

      inserted :
          (run : Result Db DbError)
          → insert_workflow x (scheduled_run x f id info) s.db ≡ run
          → count p (start_schedule_workflow x chars f id info s).1.db.workflows
            ≤ count p s.db.workflows + 1
      inserted (err d) e = rw e (omega arith)
      inserted (ok d) e =
          let t : Server = record s { db = d } in
          let steps = get_workflow_definition chars info.action_workflow_name in
          let same = insert_steps_runs info.action_args_json 0 steps t in
          let done = insert_steps x f info.action_args_json 0 steps t in
          let rest =
            continue_keeps (SameRuns t) done.0
              (λ _. notify (workflow_created (x.uuid_to_string f.run_id))) done.1 same
              (λ _. notify_runs (workflow_created (x.uuid_to_string f.run_id)) done.1 ∙ same) in
          let run = scheduled_run x f id info in
          let (row, inserts, _) =
            >>=-eq-ok (workflow_to_row x run) (λ r. insert_workflow_row r s.db) (added d e) in
          rw e (
            omega (
              arith,
              ap (count p) rest,
              ap (count p) (insert_workflow_row_runs row s.db d inserts),
              count-append_row p row s.db.workflows,
            ))

  -- The policies 'skip' and 'terminate' leave a schedule at most one run that is pending or running, if
  -- it had at most one before: whether the schedule fires or not, and also where starting the run fails halfway.
  pub process_schedule-at_most_one :
      (id : String) (s : Server) (row : ScheduleRow)
      → HasKey by_run s.db.workflows
      → find (has_schedule id) s.db.schedules ≡ some row
      → (row.overlap_policy ≡ "skip") ⊎ (row.overlap_policy ≡ "terminate")
      → count (is_active_run x id) s.db.workflows ≤ 1
      → count (is_active_run x id) (process_schedule x chars f id s).1.db.workflows ≤ 1
  unfolding process_schedule process_info apply_policy
  process_schedule-at_most_one id s row keyed found policy bound =
      fired (should_fire x (info_of x row) f.now.utc s.db) refl
    where
      alone :
          check_running_workflow x id s.db ≡ false
          → count
              (is_active_run x id)
              (start_schedule_workflow x chars f id (info_of x row) s).1.db.workflows
            ≤ 1
      alone c =
          let none_active : count (is_active_run x id) s.db.workflows ≡ 0 = ground (arith, c) in
          omega (arith, start_runs id (info_of x row) (is_active_run x id) s, none_active)

      fired :
          (r : Result Bool DbError)
          → should_fire x (info_of x row) f.now.utc s.db ≡ r
          → count (is_active_run x id) (process_schedule x chars f id s).1.db.workflows ≤ 1
      fired (err d) e = rw (found, e) bound
      fired (ok false) e = rw (found, e) bound
      fired (ok true) e = elim policy [
        | inl skip ↦ elim (Bool-cases (check_running_workflow x id s.db)) [
          | inl c ↦ rw (found, e, skip, c) bound
          | inr c ↦ rw (found, e, skip, c) (alone c)
        ]
        | inr terminate ↦ elim (Bool-cases (check_running_workflow x id s.db)) [
          | inl c ↦
              let ended = terminate_existing_lem x f.now id s keyed in
              let t = (terminate_existing x f.now id s).1 in
              rw (found, e, terminate, c, ended.0)
                (omega (arith, start_runs id (info_of x row) (is_active_run x id) t, ended.1.0))
          | inr c ↦ rw (found, e, terminate, c) (alone c)
        ]
      ]
