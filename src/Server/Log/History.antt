-- ===== src/Server/Log/History.antt =====
-- Rows of steps and of runs stay, and so do the columns that say what they are.
use khronos.Prelude.{
  ℕ, String, ◌≡◌, refl, ◌∙◌, Bool, true, false, Option, some, List, arith, if◌then◌else◌, ap,
}
use mathlib.Core.Option
use khronos.External.{External}
use khronos.Table.{find, update, append_row, edit, find-append_row, find-update}
use khronos.Table.Keys.{find-exists}
use khronos.Db.Schema.{WorkflowRow, StepRow, Db, has_step, has_run}
use khronos.Server.Log.{Log, untouched, ran}
use khronos.Server.Engine.Handlers.{reset_row}
use khronos.Server.Log.Changes.{
  SameRun, StepChange, steps_same, step_added, step_edited, step_cleared, RunChange, runs_same,
  run_added, run_edited, Statement-Changes,
}

-- the columns of a step that no statement changes
pub record SameStep (r r' : StepRow) : Type 0 where
  pub id : r'.id ≡ r.id
  pub run : r'.workflow_run_id ≡ r.workflow_run_id
  pub index : r'.step_index ≡ r.step_index
  pub activity : r'.activity_name ≡ r.activity_name
  pub args : r'.args_json ≡ r.args_json
  pub policy : r'.retry_policy_json ≡ r.retry_policy_json
  pub timeout : r'.timeout_secs ≡ r.timeout_secs
  pub heartbeat_timeout : r'.heartbeat_timeout_secs ≡ r.heartbeat_timeout_secs
  pub created : r'.created_at ≡ r.created_at

SameStep-with :
    (r : StepRow) (state : String) (attempt : ℕ) (result retry_at : Option String)
    → SameStep r (record r {
      state = state;
      attempt = attempt;
      result_json = result;
      next_retry_at = retry_at;
    })
SameStep-with r state attempt result retry_at = record {
  id = refl;
  run = refl;
  index = refl;
  activity = refl;
  args = refl;
  policy = refl;
  timeout = refl;
  heartbeat_timeout = refl;
  created = refl;
}

module _ {Row : Type 0} (p : Row → Bool) (Same : Row → Row → Type 0) where
  -- a query finds the row that it found, up to the columns that may change
  abbrev pub Finds : List Row → List Row → Type 0
  Finds rows rows' =
      (r : Row) → find p rows ≡ some r → (r' : Row) × (find p rows' ≡ some r') × Same r r'

  pub Finds-trans :
      ((a b c : Row) → Same a b → Same b c → Same a c)
      → (xs ys zs : List Row) → Finds xs ys
      → Finds ys zs
      → Finds xs zs
  Finds-trans trans xs ys zs fy fz r f =
      let (r', f', same) = fy r f in
      let (r'', f'', same') = fz r' f' in (r'', f'', trans r r' r'' same same')

module _ {Row : Type 0} (p : Row → Bool) (Same : Row → Row → Type 0)
    (same_refl : (r : Row) → Same r r) where
  Finds-same : (rows rows' : List Row) → rows' ≡ rows → Finds p Same rows rows'
  Finds-same rows rows' e r f = (r, ap (find p) e ∙ f, same_refl r)

  Finds-added :
      (rows rows' : List Row) (new : Row) → rows' ≡ append_row new rows → Finds p Same rows rows'
  Finds-added rows rows' new e r f = (
    r,
    ap (find p) e ∙ find-append_row p new rows ∙ rw (find-exists p rows {r = r} f) f,
    same_refl r,
  )

  Same-edit :
      (q : Row → Bool) (set : Row → Row)
      → ((r : Row) → Same r (set r))
      → (r : Row) → Same r (edit q set r)
  Same-edit q set same r = elim (q r) as (λ b. Same r (if b then set r else r)) [
    | true ↦ same r
    | false ↦ same_refl r
  ]

  Finds-edited :
      (rows rows' : List Row) (q : Row → Bool) (set : Row → Row)
      → ((r : Row) → p (set r) ≡ p r)
      → ((r : Row) → Same r (set r))
      → rows' ≡ update q set rows
      → Finds p Same rows rows'
  Finds-edited rows rows' q set keeps same e r f = (
    edit q set r,
    ap (find p) e ∙ find-update p q set keeps rows ∙ ap (Option.map (edit q set)) f,
    Same-edit q set same r,
  )

pub SameStep-refl : (r : StepRow) → SameStep r r
SameStep-refl r = ground arith

pub SameStep-trans : (a b c : StepRow) → SameStep a b → SameStep b c → SameStep a c
SameStep-trans a b c p q = ground arith

pub SameRun-refl : (r : WorkflowRow) → SameRun r r
SameRun-refl r = ground arith

pub SameRun-trans : (a b c : WorkflowRow) → SameRun a b → SameRun b c → SameRun a c
SameRun-trans a b c p q = ground arith

abbrev pub StepsFound : String → Db → Db → Type 0
StepsFound id db db' = Finds (has_step id) SameStep db.workflow_steps db'.workflow_steps

abbrev pub RunsFound : String → Db → Db → Type 0
RunsFound id db db' = Finds (has_run id) SameRun db.workflows db'.workflows

module _ (x : External) (id : String) where
  StepChange-Finds :
      (rows rows' : List StepRow)
      → StepChange x rows rows'
      → Finds (has_step id) SameStep rows rows'
  StepChange-Finds rows rows' (steps_same e) =
      Finds-same (has_step id) SameStep SameStep-refl rows rows' e
  StepChange-Finds rows rows' (step_added now step r fresh row new e) =
      Finds-added (has_step id) SameStep SameStep-refl rows rows' r e
  StepChange-Finds rows rows' (step_edited step_id state attempt v at text stored written e) =
      Finds-edited (has_step id) SameStep SameStep-refl rows rows' (has_step step_id) _ (λ r. refl)
        (λ r. SameStep-with r _ _ _ _) e
  StepChange-Finds rows rows' (step_cleared step_id e) =
      Finds-edited (has_step id) SameStep SameStep-refl rows rows' (has_step step_id) reset_row
        (λ r. refl) (λ r. SameStep-with r _ _ _ _) e

  RunChange-Finds :
      (rows rows' : List WorkflowRow) → RunChange rows rows' → Finds (has_run id) SameRun rows rows'
  RunChange-Finds rows rows' (runs_same e) =
      Finds-same (has_run id) SameRun SameRun-refl rows rows' e
  RunChange-Finds rows rows' (run_added r new e) =
      Finds-added (has_run id) SameRun SameRun-refl rows rows' r e
  RunChange-Finds rows rows' (run_edited test set same e) =
      Finds-edited (has_run id) SameRun SameRun-refl rows rows' test set
        (λ r. rw (same r).run_id refl) same e

  pub Log-StepsFound : (db : Db) {db' : Db} → Log x db db' → StepsFound id db db'
  Log-StepsFound db untouched r f = (r, f, SameStep-refl r)
  Log-StepsFound db (ran before after log last) r f =
      Finds-trans (has_step id) SameStep SameStep-trans db.workflow_steps before.workflow_steps
        after.workflow_steps (Log-StepsFound db log)
        (StepChange-Finds _ _ (Statement-Changes x before last).0) r f

  pub Log-RunsFound : (db : Db) {db' : Db} → Log x db db' → RunsFound id db db'
  Log-RunsFound db untouched r f = (r, f, SameRun-refl r)
  Log-RunsFound db (ran before after log last) r f =
      Finds-trans (has_run id) SameRun SameRun-trans db.workflows before.workflows after.workflows
        (Log-RunsFound db log) (RunChange-Finds _ _ (Statement-Changes x before last).1) r f
