-- ===== src/Server/Engine/Swept.antt =====
-- What the sweep over retries leaves.
use khronos.Prelude.{
  String, Bool, true, false, List, [], ◌∷◌, ◌≡◌, refl, ◌&&◌, not, inl, inr, arith, map, contains,
  eq_iff, eq_refl, Bool-cases,
}
use mathlib.Core.Path.{subst}
use khronos.Prelude.Result.{ok}
use khronos.External.{External, Now}
use khronos.Table.{select, exists, update}
use khronos.Table.Rows.{In, In-select, exists-false}
use khronos.Db.Schema.{StepRow, has_step}
use khronos.Server.State.{Server}
use khronos.Server.Engine.Handlers.{reset_step, reset_row}
use khronos.Server.Engine.Sweeps.{is_ripe, step_id, reset_steps, check_retries}

contains-map :
    (r : StepRow) (rows : List StepRow) → In r rows → contains (map step_id rows) r.id ≡ true
contains-map r [] i = absurd i
contains-map r (x ∷ rows) (inl e) =
    subst (λ y. contains (map step_id (x ∷ rows)) y.id ≡ true) e (rw (eq_refl x.id) refl)
contains-map r (x ∷ rows) (inr i) = ground (arith, contains-map r rows i)

-- a ripe step whose id is not among those that the loop still goes over
abbrev left_out : String → List String → StepRow → Bool
left_out now ids r = is_ripe now r && not (contains ids r.id)

exists-left_out :
    (now id : String) (ids : List String) (rows : List StepRow)
    → exists (left_out now (id ∷ ids)) rows ≡ false
    → exists (left_out now ids) (update (has_step id) reset_row rows) ≡ false
unfolding exists update
exists-left_out now id ids [] h = refl
exists-left_out now id ids (r ∷ rows) h =
    ground (arith, eq_iff r.id id, eq_iff id r.id, exists-left_out now id ids rows)

exists-ripe :
    (now : String) (rows : List StepRow)
    → exists (left_out now []) rows ≡ false
    → exists (is_ripe now) rows ≡ false
unfolding exists
exists-ripe now [] h = refl
exists-ripe now (r ∷ rows) h = ground (arith, exists-ripe now rows)

module _ (x : External) where
  reset_steps_none_ripe :
      (now : String) (ids : List String) (s : Server)
      → exists (left_out now ids) s.db.workflow_steps ≡ false
      → ((reset_steps x ids s).0 ≡ ok tt)
        × (exists (is_ripe now) (reset_steps x ids s).1.db.workflow_steps ≡ false)
  unfolding reset_steps reset_step
  reset_steps_none_ripe now [] s h = (refl, exists-ripe now s.db.workflow_steps h)
  reset_steps_none_ripe now (id ∷ ids) s h =
      reset_steps_none_ripe now ids
        (record s {
          db = record s.db { workflow_steps = update (has_step id) reset_row s.db.workflow_steps };
        })
        (exists-left_out now id ids s.db.workflow_steps h)

  -- The sweep over retries succeeds and leaves no step that is retried and whose time, as text, has come.
  check_retries-none_ripe :
      (now : Now) (s : Server)
      → ((check_retries x now s).0 ≡ ok tt)
        × (exists (is_ripe (x.format now.utc)) (check_retries x now s).1.db.workflow_steps ≡ false)
  unfolding check_retries
  check_retries-none_ripe now s =
      let text = x.format now.utc in
      reset_steps_none_ripe text (map step_id (select (is_ripe text) s.db.workflow_steps)) s (
        exists-false (left_out text (map step_id (select (is_ripe text) s.db.workflow_steps)))
          s.db.workflow_steps
          (λ r i. elim (Bool-cases (is_ripe text r)) [
            | inr off ↦ rw off
            | inl on ↦ rw (
              contains-map r (select (is_ripe text) s.db.workflow_steps)
                  (In-select (is_ripe text) r s.db.workflow_steps i on),
              on,
            )
          ]))
