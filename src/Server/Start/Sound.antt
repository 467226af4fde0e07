-- ===== src/Server/Start/Sound.antt =====
-- The database of the running program.
use khronos.Prelude.{ℕ, zero, suc, String, none, List, [], ◌∷◌, ◌≡◌, sym, arith, length, All}
use mathlib.Core.Path.{subst}
use khronos.Prelude.Result.{ok}
use khronos.Values.{DateTime}
use khronos.Core.Workflow.{WorkflowStepInstance}
use khronos.External.{External}
use khronos.Table.{count}
use khronos.Db.Integrity.{IsValid, empty-IsValid}
use khronos.Db.Activities.{get_pending_steps, is_due}
use khronos.Server.State.{Server}
use khronos.Server.Definitions.{Chars}
use khronos.Server.Log.{Log, untouched, Log-append}
use khronos.Server.Log.Integrity.{Log-IsValid}
use khronos.Server.Log.Reading.{ReadsBack, Reads, Log-Reads}
use khronos.Server.System.{Step-Log}
use khronos.Server.System.Pending.{get_pending_steps-read}
use khronos.Server.Temporal.Update.{
  Execute, UpdatesSchedules, update_schedule-IsValid, update_schedule-workflow_steps,
}
use khronos.Server.Scheduler.Start.{Firing}
use khronos.Server.Scheduler.Run.{Scheduler, on_sleep, on_change, fire_due}
use khronos.Server.Scheduler.Process.{process_schedule}
use khronos.Server.Scheduler.Due.{process_each, fire_due_lem}
use khronos.Server.Scheduler.Log.{process_schedule-IsLogged}
use khronos.Server.Start.{
  Program, run_server, main, Move, served, updated, slept, heard, Runs, spawned, moved,
}

module _ (x : External) where
  process_each-Log :
      (chars : Chars) (firing : ℕ → Firing) (fuel : ℕ) (ids : List String) (s : Server)
      → Log x s.db (process_each x chars firing fuel ids s).db
  unfolding process_each
  process_each-Log chars firing fuel [] s = untouched
  process_each-Log chars firing zero (id ∷ ids) s = untouched
  process_each-Log chars firing (suc fuel) (id ∷ ids) s =
      Log-append ((process_schedule-IsLogged x chars (firing fuel) id).at s)
        (process_each-Log chars firing fuel ids (process_schedule x chars (firing fuel) id s).1)

  on_sleep-Log :
      (chars : Chars) (firing : ℕ → Firing) (now later : DateTime) (state : Scheduler)
      → Log x state.server.db (on_sleep x chars firing now later state).server.db
  unfolding on_sleep
  on_sleep-Log chars firing now later state =
      let fuel : ℕ = length state.heap in
      let fired = fire_due x fuel chars firing now state.heap state.server in
      let due = fire_due_lem x chars firing fuel now state.heap state.server (omega arith) in
      subst (λ (s : Server). Log x state.server.db s.db) (sym due.2)
        (process_each-Log chars firing fuel fired.0 state.server)

  -- the database is sound, and the rows of its steps are read
  record Sound (p : Program) : Type 0 where
    valid : IsValid p.scheduler.server.db
    readable : All (Reads x) p.scheduler.server.db.workflow_steps

  logged :
      (p q : Program)
      → ReadsBack x
      → Log x p.scheduler.server.db q.scheduler.server.db
      → Sound p
      → Sound q
  logged p q lib log sound = record {
    valid = Log-IsValid x p.scheduler.server.db {db' = q.scheduler.server.db} log sound.valid;
    readable =
        Log-Reads x lib p.scheduler.server.db {db' = q.scheduler.server.db} log sound.readable;
  }

  Move-Sound :
      (execute : Execute) (p q : Program)
      → ReadsBack x
      → UpdatesSchedules execute
      → Move x execute p q
      → Sound p
      → Sound q
  unfolding on_change
  Move-Sound execute _ q lib sqlite (served p s step) sound =
      logged p q lib (Step-Log x p.scheduler.server s step) sound
  Move-Sound execute _ _ lib sqlite (updated p digits req) sound = record {
    valid = update_schedule-IsValid execute digits req p.scheduler.server sqlite sound.valid;
    readable =
        subst (All (Reads x))
          (sym (update_schedule-workflow_steps execute digits req p.scheduler.server sqlite))
          sound.readable;
  }
  Move-Sound execute _ q lib sqlite (slept p chars firing now later) sound =
      logged p q lib (on_sleep-Log chars firing now later p.scheduler) sound
  Move-Sound execute _ _ lib sqlite (heard p now n e) sound = record {
    valid = sound.valid;
    readable = sound.readable;
  }

  Runs-Sound :
      (execute : Execute) (p q : Program)
      → ReadsBack x
      → UpdatesSchedules execute
      → Runs x execute p q
      → Sound p
      → Sound q
  Runs-Sound execute p _ lib sqlite spawned sound = sound
  Runs-Sound execute p _ lib sqlite (moved q r path move) sound =
      Move-Sound execute q r lib sqlite move (Runs-Sound execute p q lib sqlite path sound)

  -- A server that is started on a new file has a sound database after each of the steps that its tasks take one after
  -- the other: a call that changes the database, the Temporal-compatible update_schedule included, an event of the
  -- engine, a timer, a round of the scheduler's loop. Keys are unique, states are allowed and references find their
  -- rows; and every query for pending steps succeeds, with a step for each row that is due. This is given that the
  -- libraries read what they write of a step, and that SQLite's UPDATE of the schedules, whatever is spliced into its
  -- text, changes no other table and keeps the primary key.
  pub main-IsValid :
      (execute : Execute) (start : DateTime) (p : Program)
      → ReadsBack x
      → UpdatesSchedules execute
      → Runs x execute (main x start none) p
      → IsValid p.scheduler.server.db
        × ((now : String)
            → (steps : List WorkflowStepInstance) × (get_pending_steps x now p.scheduler.server.db
                ≡ ok steps)
              × (length steps ≡ count (is_due now) p.scheduler.server.db.workflow_steps))
  unfolding main run_server
  main-IsValid execute start p lib sqlite path =
      let begun : Sound (main x start none) = record { valid = empty-IsValid; readable = tt } in
      let sound : Sound p = Runs-Sound execute (main x start none) p lib sqlite path begun in
      (sound.valid, λ now. get_pending_steps-read x now p.scheduler.server.db sound.readable)
