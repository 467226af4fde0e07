-- ===== src/Server/Log/Reading.antt =====
-- Every row of a step can be read back.
use khronos.Prelude.{ℕ, String, ◌≡◌, refl, sym, Option, none, some, List, arith, All}
use mathlib.Core.Option
use mathlib.Core.Path.{subst}
use khronos.Prelude.Result.{ok, ok_or, map_ok, transpose, >>=-eq-ok, ok-injective}
use khronos.Values.{Value, DateTime, Uuid, as_64, as_u32}
use khronos.Core.Activity.{RetryPolicy}
use khronos.Core.Workflow.{WorkflowState, WorkflowStepInstance}
use khronos.External.{External}
use khronos.Table.Keys.{All-update, All-append_row}
use khronos.Db.Error.{json}
use khronos.Db.Schema.{StepRow, Db}
use khronos.Db.States.{workflow_state_to_str, str_to_workflow_state, str_to_workflow_state_iff}
use khronos.Db.Dates.{format_datetime, parse_step_datetime, parsed, try_formats}
use khronos.Db.Workflows.{value_text}
use khronos.Db.Activities.{row_to_step, step_to_row, set_step_state}
use khronos.Server.Engine.Handlers.{reset_row}
use khronos.Server.Log.{Log, untouched, ran}
use khronos.Server.Log.Statements.{Stored, no_result, StepArgs, IsBuiltIn, IsFresh}
use khronos.Server.Log.Changes.{
  StepChange, steps_same, step_added, step_edited, step_cleared, Statement-Changes,
}

-- The libraries read the texts that they write, of the values that the program gives them for a step: of uuid;
-- of serde_json for finite floats, for texts and maps of texts, and for values that it has read; of chrono for a
-- time without a fraction of a second, whose format has an optional one.
pub record ReadsBack (x : External) : Type 0 where
  pub uuids : (u : Uuid) → x.uuid_parse_str (x.uuid_to_string u) ≡ some u
  pub policies :
      (p : RetryPolicy) (t : String)
      → IsBuiltIn p
      → x.retry_to_string p ≡ some t
      → (p' : RetryPolicy) × (x.retry_from_str t ≡ some p')
  pub args :
      (v : Value) (t : String)
      → StepArgs x v
      → x.value_to_string v ≡ some t
      → (v' : Value) × (x.value_from_str t ≡ some v')
  pub results :
      (v : Value) (t : String)
      → Stored x (some v)
      → x.value_to_string v ≡ some t
      → (v' : Value) × (x.value_from_str t ≡ some v')
  pub times :
      (d : DateTime)
      → (d' : DateTime) × (x.naive_parse "%Y-%m-%d %H:%M:%S%.f" (x.format d) ≡ some d')

module _ (x : External) where
  abbrev pub ResultReads : Option String → Type 0
  ResultReads none = Unit
  ResultReads (some t) = (v : Value) × (x.value_from_str t ≡ some v)

  abbrev pub TimeReads : Option String → Type 0
  TimeReads none = Unit
  TimeReads (some t) = (d : DateTime) × (parse_step_datetime x t ≡ ok d)

  -- every column of the row is read
  pub record Reads (r : StepRow) : Type 0 where
    pub id_read : (u : Uuid) × (x.uuid_parse_str r.id ≡ some u)
    pub run_read : (u : Uuid) × (x.uuid_parse_str r.workflow_run_id ≡ some u)
    pub state_read : (state : WorkflowState) × (str_to_workflow_state r.state ≡ ok state)
    pub args_read : (v : Value) × (x.value_from_str r.args_json ≡ some v)
    pub policy_read : (p : RetryPolicy) × (x.retry_from_str r.retry_policy_json ≡ some p)
    pub result_read : ResultReads r.result_json
    pub retry_read : TimeReads r.next_retry_at

  result_ok :
      (o : Option String)
      → ResultReads o
      → (v : Option Value) × (transpose (λ s. ok_or (x.value_from_str s) json) o ≡ ok v)
  result_ok none h = (none, refl)
  result_ok (some t) (v, e) = (some v, rw e refl)

  time_ok :
      (o : Option String)
      → TimeReads o
      → (d : Option DateTime) × (transpose (parse_step_datetime x) o ≡ ok d)
  time_ok none h = (none, refl)
  time_ok (some t) (d, e) = (some d, rw e refl)

  pub Reads-row_to_step :
      (r : StepRow) → Reads r → (step : WorkflowStepInstance) × (row_to_step x r ≡ ok step)
  unfolding row_to_step
  Reads-row_to_step r reads =
      let (u, e1) = reads.id_read in
      let (v, e2) = reads.run_read in
      let (state, e3) = reads.state_read in
      let (args, e4) = reads.args_read in
      let (p, e5) = reads.policy_read in
      let (result, e6) = result_ok r.result_json reads.result_read in
      let (at, e7) = time_ok r.next_retry_at reads.retry_read in
      (
        record {
          id = u;
          workflow_run_id = v;
          step_index = as_64 r.step_index;
          activity_name = r.activity_name;
          args_json = args;
          retry_policy = p;
          timeout_secs = as_64 r.timeout_secs;
          heartbeat_timeout_secs = Option.map as_64 r.heartbeat_timeout_secs;
          state = state;
          attempt = as_u32 r.attempt;
          result_json = result;
          next_retry_at = at;
        },
        rw (e1, e2, e3, e4, e5, e6, e7) refl,
      )

written_text :
    (o text : Option String)
    → map_ok some (ok_or o json) ≡ ok text
    → (t : String) × (o ≡ some t) × (some t ≡ text)
written_text none text h = cc
written_text (some t) text h = (t, refl, ok-injective h)

-- what the program writes is read
module _ (x : External) (lib : ReadsBack x) where
  value_text-ResultReads :
      (v : Option Value) (text : Option String)
      → Stored x v
      → transpose (value_text x) v ≡ ok text
      → ResultReads x text
  unfolding value_text
  value_text-ResultReads none text stored h = subst (ResultReads x) (ok-injective h) tt
  value_text-ResultReads (some v) text stored h =
      let (t, e, same) = written_text (x.value_to_string v) text h in
      subst (ResultReads x) same (lib.results v t stored e)

  parsed_ok :
      (s : String) (o later : Option DateTime) (d : DateTime)
      → later ≡ some d
      → (d' : DateTime) × (parsed s o later ≡ ok d')
  parsed_ok s (some e) later d h = (e, refl)
  parsed_ok s none later d h = (d, rw h refl)

  format_datetime-TimeReads : (at : Option DateTime) → TimeReads x (format_datetime x at)
  unfolding format_datetime parse_step_datetime
  format_datetime-TimeReads none = tt
  format_datetime-TimeReads (some d) =
      let (d', e) = lib.times d in parsed_ok (x.format d) _ _ d' (rw (try_formats, e) refl)

  state_read_back :
      (state : WorkflowState)
      → (s : WorkflowState) × (str_to_workflow_state (workflow_state_to_str state) ≡ ok s)
  state_read_back state =
      (state, (str_to_workflow_state_iff (workflow_state_to_str state) state).1 refl)

  step_to_row-Reads :
      (now : String) (step : WorkflowStepInstance) (r : StepRow)
      → IsFresh x step
      → step_to_row x now step ≡ ok r
      → Reads x r
  unfolding step_to_row value_text
  step_to_row-Reads now step r fresh h =
      let (args, h1, e1) = >>=-eq-ok (ok_or (x.value_to_string step.args_json) json) _ h in
      let (policy, h2, e2) = >>=-eq-ok (ok_or (x.retry_to_string step.retry_policy) json) _ h1 in
      let (result, h3, e3) = >>=-eq-ok (transpose (value_text x) step.result_json) _ h2 in
      subst (Reads x) (ok-injective h3) (record {
        id_read = (step.id, lib.uuids step.id);
        run_read = (step.workflow_run_id, lib.uuids step.workflow_run_id);
        state_read = state_read_back step.state;
        args_read = lib.args step.args_json args fresh.args (ground arith);
        policy_read = lib.policies step.retry_policy policy fresh.policy (ground arith);
        result_read =
            value_text-ResultReads step.result_json result (rw fresh.no_result_yet no_result) e3;
        retry_read = format_datetime-TimeReads step.next_retry_at;
      })

  set_step_state-Reads :
      (state : WorkflowState) (attempt : Option ℕ) (text : Option String) (at : Option DateTime)
      (r : StepRow)
      → ResultReads x text
      → Reads x r
      → Reads x (set_step_state (workflow_state_to_str state) attempt text (format_datetime x at) r)
  set_step_state-Reads state attempt text at r result reads = record {
    id_read = reads.id_read;
    run_read = reads.run_read;
    state_read = state_read_back state;
    args_read = reads.args_read;
    policy_read = reads.policy_read;
    result_read = result;
    retry_read = format_datetime-TimeReads at;
  }

  reset_row-Reads : (r : StepRow) → Reads x r → Reads x (reset_row r)
  unfolding str_to_workflow_state
  reset_row-Reads r reads = record {
    id_read = reads.id_read;
    run_read = reads.run_read;
    state_read = (WorkflowState.pending, refl);
    args_read = reads.args_read;
    policy_read = reads.policy_read;
    result_read = reads.result_read;
    retry_read = tt;
  }

  StepChange-Reads :
      (rows rows' : List StepRow)
      → StepChange x rows rows'
      → All (Reads x) rows
      → All (Reads x) rows'
  StepChange-Reads rows rows' (steps_same e) all = subst (All (Reads x)) (sym e) all
  StepChange-Reads rows rows' (step_added now step r fresh row new e) all =
      subst (All (Reads x)) (sym e)
        (All-append_row (Reads x) r rows (step_to_row-Reads now step r fresh row) all)
  StepChange-Reads rows rows' (step_edited step_id state attempt v at text stored written e) all =
      subst (All (Reads x)) (sym e) (
        All-update (Reads x) _ _
          (λ r _.
            set_step_state-Reads state (Option.map as_64 attempt) text at r
              (value_text-ResultReads v text stored written))
          rows all)
  StepChange-Reads rows rows' (step_cleared step_id e) all =
      subst (All (Reads x)) (sym e)
        (All-update (Reads x) _ reset_row (λ r _. reset_row-Reads r) rows all)

  pub Log-Reads :
      (db : Db) {db' : Db}
      → Log x db db'
      → All (Reads x) db.workflow_steps
      → All (Reads x) db'.workflow_steps
  Log-Reads db untouched all = all
  Log-Reads db (ran before after log last) all =
      StepChange-Reads before.workflow_steps after.workflow_steps
        (Statement-Changes x before last).0 (Log-Reads db log all)
