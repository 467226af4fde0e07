-- ===== src/Server/System/Pending.antt =====
-- What a poll reads in a state that the server reaches.
use khronos.Prelude.{
  ◌+◌, String, ◌≡◌, refl, Bool, List, [], ◌∷◌, arith, All, length, Bool-cases, inl, inr, ◌∙◌,
}
use khronos.Prelude.Result.{Result, ok, collect}
use khronos.Core.Workflow.{WorkflowStepInstance}
use khronos.External.{External}
use khronos.Table.{select, count}
use khronos.Table.Sorting.{order_by, insert_sorted, All-order_by}
use khronos.Db.Schema.{Db, StepRow}
use khronos.Db.Activities.{get_pending_steps, row_to_step, is_due, created_asc}
use khronos.Server.State.{Server}
use khronos.Server.Log.Reading.{ReadsBack, Reads, Reads-row_to_step, Log-Reads}
use khronos.Server.System.{Reachable, Reachable-Log}

module _ {ℓ} {Row : Type ℓ} (p : Row → Bool) where
  length-select : (rows : List Row) → length (select p rows) ≡ count p rows
  unfolding select count
  length-select [] = refl
  length-select (r ∷ rows) = ground (arith, length-select rows)

module _ {Row : Type 0} (P : Row → Type 0) (p : Row → Bool) where
  All-select : (rows : List Row) → All P rows → All P (select p rows)
  unfolding select
  All-select [] all = tt
  All-select (r ∷ rows) all = elim (Bool-cases (p r)) [
    | inl e ↦ rw e (all.0, All-select rows all.1)
    | inr e ↦ rw e (All-select rows all.1)
  ]

module _ {ℓ} {Row : Type ℓ} (le : Row → Row → Bool) where
  length-insert_sorted :
      (r : Row) (rows : List Row) → length (insert_sorted le r rows) ≡ length rows + 1
  unfolding insert_sorted
  length-insert_sorted r [] = omega arith
  length-insert_sorted r (y ∷ rows) = ground (arith, length-insert_sorted r rows)

  length-order_by : (rows : List Row) → length (order_by le rows) ≡ length rows
  unfolding order_by
  length-order_by [] = refl
  length-order_by (r ∷ rows) =
      omega (arith, length-insert_sorted r (order_by le rows), length-order_by rows)

module _ {A B E : Type 0} (f : A → Result B E) where
  -- a loop of conversions that all succeed gives one value for each
  collect-All :
      (xs : List A)
      → All (λ a. (b : B) × (f a ≡ ok b)) xs
      → (ys : List B) × (collect f xs ≡ ok ys) × (length ys ≡ length xs)
  collect-All [] all = ([], refl, refl)
  collect-All (a ∷ xs) ((b, e), all) =
      let (ys, es, n) = collect-All xs all in (b ∷ ys, rw (e, es) refl, omega (arith, n))

module _ (x : External) where
  All-readable :
      (rows : List StepRow)
      → All (Reads x) rows
      → All (λ r. (step : WorkflowStepInstance) × (row_to_step x r ≡ ok step)) rows
  All-readable [] all = tt
  All-readable (r ∷ rows) all = (Reads-row_to_step x r all.0, All-readable rows all.1)

  -- where every row is read, a query gives one step for each row that is due
  pub get_pending_steps-read :
      (now : String) (db : Db)
      → All (Reads x) db.workflow_steps
      → (steps : List WorkflowStepInstance) × (get_pending_steps x now db ≡ ok steps)
        × (length steps ≡ count (is_due now) db.workflow_steps)
  unfolding get_pending_steps
  get_pending_steps-read now db all =
      let rows : List StepRow = select (is_due now) db.workflow_steps in
      let due : All (Reads x) (order_by created_asc rows) =
        All-order_by created_asc (Reads x) rows
          (All-select (Reads x) (is_due now) db.workflow_steps all) in
      let (steps, e, n) =
        collect-All (row_to_step x) (order_by created_asc rows)
          (All-readable (order_by created_asc rows) due) in
      (
        steps,
        e,
        n ∙ length-order_by created_asc rows ∙ length-select (is_due now) db.workflow_steps,
      )

  -- From a server where every step's row can be read, each state that the calls, the engine, the schedules and the
  -- timers reach answers a query for pending steps: no row fails to be read, which would fail every poll, and
  -- there is a step for each row that is due. The libraries are to read what they write of a step.
  pub Reachable-get_pending_steps :
      (s t : Server) (now : String)
      → ReadsBack x
      → All (Reads x) s.db.workflow_steps
      → Reachable x s t
      → (steps : List WorkflowStepInstance) × (get_pending_steps x now t.db ≡ ok steps)
        × (length steps ≡ count (is_due now) t.db.workflow_steps)
  Reachable-get_pending_steps s t now lib all path =
      get_pending_steps-read now t.db
        (Log-Reads x lib s.db {db' = t.db} (Reachable-Log x s t path) all)
