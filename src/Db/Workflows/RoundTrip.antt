-- ===== src/Db/Workflows/RoundTrip.antt =====
-- A run that is stored and read again.
use khronos.Prelude.{
  ℕ, String, ◌≡◌, refl, ap, false, Option, none, some, arith, ◌<◌, ◌^◌, ◌%◌, eq_refl,
}
use mathlib.Core.Option
use khronos.Prelude.Result.{ok, ok_or, transpose}
use khronos.Values.{Value, DateTime, as_64}
use khronos.Core.Workflow.{WorkflowInstance}
use khronos.External.{External, Survives}
use khronos.Table.{exists, append_row, find-append_row}
use khronos.Db.Error.{json}
use khronos.Db.Schema.{WorkflowRow, Db, has_run}
use khronos.Db.States.{workflow_state_to_str, state_checks, str_to_workflow_state_iff}
use khronos.Db.Dates.{format_datetime, parse_datetime}
use khronos.Db.Workflows.{
  value_text, workflow_to_row, insert_workflow, row_to_workflow, get_workflow,
}
use khronos.Db.Workflows.Laws.{insert_accepts}

-- a u64 that fits its column
abbrev pub Fits : Option ℕ → Type 0
Fits none = Unit
Fits (some n) = n < 2 ^ 64

read_fits : (n : Option ℕ) → Fits n → Option.map as_64 (Option.map as_64 n) ≡ n
read_fits none h = refl
read_fits (some n) h = let e : n % 2 ^ 64 % 2 ^ 64 ≡ n = omega arith in ap some e

module _ (x : External) where
  abbrev pub ResultSurvives : Option Value → Type 0
  ResultSurvives none = Unit
  ResultSurvives (some v) = Survives x.value_to_string x.value_from_str v

  -- a time without a fraction of a second
  abbrev pub TimeSurvives : Option DateTime → Type 0
  TimeSurvives none = Unit
  TimeSurvives (some d) = parse_datetime x (x.format d) ≡ ok d

  -- what is asked of the libraries at the run
  pub record RunSurvives (wf : WorkflowInstance) : Type 0 where
    pub run_id : x.uuid_parse_str (x.uuid_to_string wf.run_id) ≡ some wf.run_id
    pub args : Survives x.value_to_string x.value_from_str wf.args_json
    pub result : ResultSurvives wf.result_json
    pub started : TimeSurvives wf.started_at
    pub completed : TimeSurvives wf.completed_at
    pub execution : Fits wf.timeouts.execution_timeout_secs
    pub run : Fits wf.timeouts.run_timeout_secs
    pub task : Fits wf.timeouts.task_timeout_secs

  abbrev run_row : WorkflowInstance → String → Option String → WorkflowRow
  run_row wf args_text result = record {
    run_id = x.uuid_to_string wf.run_id;
    workflow_id = wf.workflow_id;
    name = wf.name;
    task_queue = wf.task_queue;
    state = workflow_state_to_str wf.state;
    args_json = args_text;
    result_json = result;
    execution_timeout_secs = Option.map as_64 wf.timeouts.execution_timeout_secs;
    run_timeout_secs = Option.map as_64 wf.timeouts.run_timeout_secs;
    task_timeout_secs = Option.map as_64 wf.timeouts.task_timeout_secs;
    started_at = format_datetime x wf.started_at;
    completed_at = format_datetime x wf.completed_at;
    namespace = wf.namespace;
  }

  read_result :
      (v : Option Value)
      → ResultSurvives v
      → (t : Option String) × (transpose (value_text x) v ≡ ok t)
        × (transpose (λ s. ok_or (x.value_from_str s) json) t ≡ ok v)
  unfolding value_text
  read_result none h = (none, refl, refl)
  read_result (some v) h = (some h.text, rw h.written refl, rw h.read_back refl)

  read_time :
      (d : Option DateTime)
      → TimeSurvives d
      → transpose (parse_datetime x) (format_datetime x d) ≡ ok d
  unfolding format_datetime
  read_time none h = refl
  read_time (some d) h = rw h refl

  -- A run that is inserted under a new id is read back as it was, where its id, its JSON values and its times
  -- survive as text and its timeouts fit in a column.
  pub insert_workflow-get_workflow :
      (wf : WorkflowInstance) (db : Db)
      → exists (has_run (x.uuid_to_string wf.run_id)) db.workflows ≡ false
      → RunSurvives wf
      → (db' : Db) × (insert_workflow x wf db ≡ ok db')
        × (get_workflow x (x.uuid_to_string wf.run_id) db' ≡ ok (some wf))
  unfolding insert_workflow workflow_to_row get_workflow row_to_workflow value_text
  insert_workflow-get_workflow wf db fresh h =
      let (result, written, read) = read_result wf.result_json h.result in
      let row = run_row wf h.args.text result in
      (
        record db { workflows = append_row row db.workflows },
        rw (h.args.written, written) (insert_accepts x row db (state_checks.0 wf.state) fresh),
        rw (
          find-append_row (has_run (x.uuid_to_string wf.run_id)) row db.workflows,
          fresh,
          eq_refl (x.uuid_to_string wf.run_id),
          h.run_id,
          (str_to_workflow_state_iff (workflow_state_to_str wf.state) wf.state).1 refl,
          h.args.read_back,
          read,
          read_time wf.started_at h.started,
          read_time wf.completed_at h.completed,
          read_fits wf.timeouts.execution_timeout_secs h.execution,
          read_fits wf.timeouts.run_timeout_secs h.run,
          read_fits wf.timeouts.task_timeout_secs h.task,
        ),
      )
