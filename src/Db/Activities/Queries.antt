-- ===== src/Db/Activities/Queries.antt =====
-- Which steps the queries of activities.rs give, and in which order.
use khronos.Prelude.{String, ◌≡◌, refl, Bool, true, false, Option, none, some, arith}
use khronos.Prelude.{is_some, ◌∙◌, ◌&&◌, not, Bool-cases, inl, inr}
use mathlib.Core.Path.{subst}
use khronos.Prelude.Result.{ok, map_ok}
use khronos.External.{External}
use khronos.Table.{select, exists, first}
use khronos.Table.Sorting.{order_by}
use khronos.Table.Rows.{In, exists-false, first-order_by_least}
use khronos.Table.Quantifiers.{first-select, first-order_by}
use khronos.Db.Schema.{StepRow, Db}
use khronos.Db.Activities.{is_runnable, index_asc, get_next_step_for_workflow, row_to_step}

index_total : (a b : StepRow) → index_asc a b ≡ false → index_asc b a ≡ true
index_total a b h = ground arith

index_trans : (a b c : StepRow) → index_asc a b ≡ true → index_asc b c ≡ true → index_asc a c ≡ true
index_trans a b c h k = ground arith

-- what the query gives where it finds a row, and where it finds none
abbrev NextStep : External → String → Db → Bool → Type 0
NextStep x run_id db false = get_next_step_for_workflow x run_id db ≡ ok none
NextStep x run_id db true =
    (r : StepRow) × In r db.workflow_steps
    × (is_runnable run_id r ≡ true)
    × (exists (λ y. is_runnable run_id y && not (index_asc r y)) db.workflow_steps ≡ false)
    × (get_next_step_for_workflow x run_id db ≡ map_ok some (row_to_step x r))

none_before :
    (run_id : String) (r y : StepRow)
    → (is_runnable run_id y ≡ true → index_asc r y ≡ true)
    → (is_runnable run_id y && not (index_asc r y)) ≡ false
none_before run_id r y h = elim (Bool-cases (is_runnable run_id y)) [
  | inl on ↦ rw (on, h on)
  | inr off ↦ rw off
]

module _ (x : External) where
  NextStep-found :
      (run_id : String) (db : Db) (found : Option StepRow)
      → first (order_by index_asc (select (is_runnable run_id) db.workflow_steps)) ≡ found
      → NextStep x run_id db (is_some found)
  unfolding get_next_step_for_workflow
  NextStep-found run_id db none e = rw e
  NextStep-found run_id db (some r) e =
      let (i, h, least) =
        first-order_by_least index_asc index_total index_trans (is_runnable run_id)
          db.workflow_steps {r = r} e in
      (
        r,
        i,
        h,
        exists-false (λ y. is_runnable run_id y && not (index_asc r y)) db.workflow_steps
            (λ y j. none_before run_id r y (least y j)),
        rw e,
      )

  -- The next step of a run is the step of the run with the least index among those that are pending or
  -- retried, read as an instance, and there is none exactly if the run has no such step.
  get_next_step_for_workflow_lem :
      (run_id : String) (db : Db)
      → NextStep x run_id db (exists (is_runnable run_id) db.workflow_steps)
  get_next_step_for_workflow_lem run_id db =
      subst (NextStep x run_id db)
        (first-order_by index_asc (select (is_runnable run_id) db.workflow_steps)
          ∙ first-select (is_runnable run_id) db.workflow_steps)
        (NextStep-found run_id db
          (first (order_by index_asc (select (is_runnable run_id) db.workflow_steps))) refl)
