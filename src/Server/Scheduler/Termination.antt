-- ===== src/Server/Scheduler/Termination.antt =====
-- terminate_existing ends every active run of the schedule.
use khronos.Prelude.{
  String, true, false, List, [], ◌∷◌, ◌≡◌, refl, sym, ap, ◌∙◌, arith, eqb, length, map, ◌==◌,
  eq_iff, Bool-cases, inl, inr,
}
use khronos.Prelude.Result.{ok}
use khronos.External.{External, Now}
use khronos.Table.{select, exists, count, update, update-none}
use khronos.Table.Keys.{HasKey, HasKey-update}
use khronos.Table.Quantifiers.{count-exists}
use khronos.Db.Schema.{WorkflowRow, Db, has_run}
use khronos.Db.Workflows.{cancel_workflow, cancellable, cancel_row, is_active}
use khronos.Server.State.{Server}
use khronos.Server.Scheduler.Process.{is_active_run, cancel_all, terminate_existing}

abbrev pub by_run : WorkflowRow → String
by_run r = r.run_id

-- a row that is cancelled is not active
cancel_row-inactive : (now : String) (r : WorkflowRow) → is_active (cancel_row now r) ≡ false
cancel_row-inactive now r = refl

unkeyed :
    (k : String) (rows : List WorkflowRow)
    → exists (has_run k) rows ≡ false
    → exists (cancellable k) rows ≡ false
unfolding exists
unkeyed k [] h = refl
unkeyed k (r ∷ rows) h = ground (arith, unkeyed k rows)

module _ (x : External) (now schedule_id : String) where
  abbrev running_ids : List WorkflowRow → List String
  running_ids rows = map by_run (select (is_active_run x schedule_id) rows)

  count_running :
      (rows : List WorkflowRow)
      → length (running_ids rows) ≡ count (is_active_run x schedule_id) rows
  unfolding select count
  count_running [] = refl
  count_running (r ∷ rows) = ground (arith, count_running rows)

  on_lem :
      (r : WorkflowRow) (rows : List WorkflowRow)
      → is_active_run x schedule_id r ≡ true
      → running_ids (r ∷ rows) ≡ r.run_id ∷ running_ids rows
  unfolding select
  on_lem r rows on = rw on

  off_lem :
      (r : WorkflowRow) (rows : List WorkflowRow)
      → is_active_run x schedule_id r ≡ false
      → running_ids (r ∷ rows) ≡ running_ids rows
  unfolding select
  off_lem r rows off = rw off

  cancelled_off : (r : WorkflowRow) → is_active_run x schedule_id (cancel_row now r) ≡ false
  cancelled_off r = ground arith

  -- an active run at the head is the first id, and its row is the only one of its id
  cancels_head :
      (k : String) (r : WorkflowRow) (rows : List WorkflowRow)
      → exists (has_run r.run_id) rows ≡ false
      → r.run_id ≡ k
      → is_active_run x schedule_id r ≡ true
      → (update (cancellable k) (cancel_row now) (r ∷ rows) ≡ cancel_row now r ∷ rows)
        × (exists (cancellable k) (r ∷ rows) ≡ true)
  unfolding update exists
  cancels_head k r rows new same on =
      let there : cancellable k r ≡ true = ground (arith, eq_iff r.run_id k, on) in
      let others : exists (cancellable k) rows ≡ false =
        unkeyed k rows (sym (ap (λ i. exists (has_run i) rows) same) ∙ new) in
      (rw (there, update-none (cancellable k) (cancel_row now) rows others), rw there)

  skips_head :
      (k : String) (r : WorkflowRow) (rows : List WorkflowRow)
      → exists (has_run r.run_id) rows ≡ false
      → exists (cancellable k) rows ≡ true
      → (update (cancellable k) (cancel_row now) (r ∷ rows)
          ≡ r ∷ update (cancellable k) (cancel_row now) rows)
        × (exists (cancellable k) (r ∷ rows) ≡ true)
  unfolding update exists
  skips_head k r rows new found =
      let other : (r.run_id == k) ≡ false = ground (arith, eq_iff r.run_id k, unkeyed k rows) in
      (rw other, ground (arith, found))

  -- the first of the active runs is there to cancel, and then the others are the active ones
  first_cancelled :
      (k : String) (ids : List String) (rows : List WorkflowRow)
      → HasKey by_run rows
      → running_ids rows ≡ k ∷ ids
      → (running_ids (update (cancellable k) (cancel_row now) rows) ≡ ids)
        × (exists (cancellable k) rows ≡ true)
  unfolding select
  first_cancelled k ids [] keyed h = cc
  first_cancelled k ids (r ∷ rows) keyed h = elim (Bool-cases (is_active_run x schedule_id r)) [
    | inl on ↦
        let e : r.run_id ∷ running_ids rows ≡ k ∷ ids = sym (on_lem r rows on) ∙ h in
        let same : r.run_id ≡ k = cc in
        let tail : running_ids rows ≡ ids = cc in
        let head = cancels_head k r rows keyed.0 same on in
        (ap running_ids head.0 ∙ off_lem (cancel_row now r) rows (cancelled_off r) ∙ tail, head.1)
    | inr off ↦
        let e : running_ids rows ≡ k ∷ ids = sym (off_lem r rows off) ∙ h in
        let rest = first_cancelled k ids rows keyed.1 e in
        let head = skips_head k r rows keyed.0 rest.1 in
        (
          ap running_ids head.0
              ∙ off_lem r (update (cancellable k) (cancel_row now) rows) off
              ∙ rest.0,
          head.1,
        )
  ]

cancel_there :
    (now k : String) (db : Db)
    → exists (cancellable k) db.workflows ≡ true
    → cancel_workflow now k db
      ≡ ok (record db { workflows = update (cancellable k) (cancel_row now) db.workflows })
unfolding cancel_workflow
cancel_there now k db found =
    let some_row : eqb (count (cancellable k) db.workflows) 0 ≡ false =
      ground (arith, count-exists (cancellable k) db.workflows) in
    rw some_row

module _ (x : External) (now : Now) (schedule_id : String) where
  -- a server as another one, but for the runs, of which the schedule has none active
  abbrev pub NoneActive : Server → Server → Type 0
  NoneActive s t =
      (count (is_active_run x schedule_id) t.db.workflows ≡ 0)
      × (t.events ≡ s.events)
      × (t.engine_tx ≡ s.engine_tx)

  cancel_all_lem :
      (ids : List String) (s : Server)
      → HasKey by_run s.db.workflows
      → running_ids x now.sql schedule_id s.db.workflows ≡ ids
      → ((cancel_all now ids s).0 ≡ ok tt) × NoneActive s (cancel_all now ids s).1
  unfolding cancel_all
  cancel_all_lem [] s keyed h =
      (refl, (sym (count_running x now.sql schedule_id s.db.workflows) ∙ ap length h, refl, refl))
  cancel_all_lem (k ∷ ids) s keyed h =
      let first = first_cancelled x now.sql schedule_id k ids s.db.workflows keyed h in
      let t : Server = record s {
        db = record s.db { workflows = update (cancellable k) (cancel_row now.sql) s.db.workflows };
      } in
      rw (cancel_there now.sql k s.db first.1) (
        cancel_all_lem ids t
          (HasKey-update by_run (cancellable k) (cancel_row now.sql) (λ r. refl) s.db.workflows
            keyed)
          first.0)

  -- Where no two runs have one id, terminate_existing succeeds and leaves no run of the schedule pending or
  -- running; it sends no event.
  pub terminate_existing_lem :
      (s : Server)
      → HasKey by_run s.db.workflows
      → ((terminate_existing x now schedule_id s).0 ≡ ok tt)
        × NoneActive s (terminate_existing x now schedule_id s).1
  unfolding terminate_existing
  terminate_existing_lem s keyed =
      cancel_all_lem (running_ids x now.sql schedule_id s.db.workflows) s keyed refl
