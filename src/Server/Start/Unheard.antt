-- ===== src/Server/Start/Unheard.antt =====
-- The scheduler does not hear of a schedule that is created while the server runs.
use khronos.Prelude.{
  ℕ, zero, String, false, Option, none, some, List, [], ◌∷◌, ◌≡◌, refl, ◌∙◌, ◌==◌, arith, length,
}
use khronos.Prelude.Result.{Result, ok, err, ◌>>=◌}
use khronos.Values.{DateTime}
use khronos.External.{External}
use khronos.Table.{count, exists}
use khronos.Db.Error.{DbError}
use khronos.Db.Schema.{ScheduleRow, Db, has_schedule}
use khronos.Server.Definitions.{Chars}
use khronos.Server.Scheduler.Times.{info_of, next_fire}
use khronos.Server.Temporal.Update.{Execute}
use khronos.Server.Scheduler.Start.{Firing}
use khronos.Server.Scheduler.Heap.{Heap}
use khronos.Server.Scheduler.Run.{with_next, rebuilt, next_fires, fire_due, reload_all_schedules}
use khronos.Server.Scheduler.Due.{of_schedule, fire_due_lem}
use khronos.Server.Scheduler.Entries.{keep_other, on_sleep-count, count-split}
use khronos.Server.Start.{
  Program, run_server, Move, served, updated, slept, heard, Runs, spawned, moved,
}

module _ (id : String) where
  abbrev Lacks : Heap → Type 0
  Lacks heap = count (of_schedule id) heap ≡ 0

  with_next-Lacks :
      (k : String) (next : Option DateTime) (fires : Heap)
      → (k == id) ≡ false
      → Lacks fires
      → Lacks (with_next k next fires)
  with_next-Lacks k none fires other lacks = lacks
  with_next-Lacks k (some t) fires other lacks = keep_other k id t fires other ∙ lacks

  module _ (x : External) (now : DateTime) (db : Db) where
    next-Lacks :
        (r : ScheduleRow) (rows : List ScheduleRow) (fires : Heap)
        (next : Result (Option DateTime) DbError)
        → (r.schedule_id == id) ≡ false
        → Lacks fires
        → ((later : Heap) → Lacks later → Lacks (rebuilt x [] (next_fires x now db rows later)).1)
        → Lacks
            (rebuilt x []
              (next >>= λ o. next_fires x now db rows (with_next r.schedule_id o fires))).1
    unfolding count
    next-Lacks r rows fires (err e) other lacks ih = refl
    next-Lacks r rows fires (ok o) other lacks ih =
        ih (with_next r.schedule_id o fires) (with_next-Lacks r.schedule_id o fires other lacks)

    rebuilt-Lacks :
        (rows : List ScheduleRow) (fires : Heap)
        → exists (has_schedule id) rows ≡ false
        → Lacks fires
        → Lacks (rebuilt x [] (next_fires x now db rows fires)).1
    unfolding next_fires exists
    rebuilt-Lacks [] fires gone lacks = lacks
    rebuilt-Lacks (r ∷ rows) fires gone lacks =
        next-Lacks r rows fires (next_fire x (info_of x r) now db) (ground arith) lacks
          (λ later. rebuilt-Lacks rows later (ground arith))

  -- no message on the scheduler's channel, and no entry of the schedule
  record Unheard (p : Program) : Type 0 where
    silent : p.schedule_changes ≡ zero
    lacking : Lacks p.scheduler.heap

  Move-Unheard :
      (x : External) (execute : Execute) (p q : Program)
      → Move x execute p q
      → Unheard p
      → Unheard q
  Move-Unheard x execute _ _ (updated p digits req) u = record {
    silent = u.silent;
    lacking = u.lacking;
  }
  Move-Unheard x execute _ _ (served p s step) u = record { silent = u.silent; lacking = u.lacking }
  Move-Unheard x execute _ _ (slept p chars firing now later) u = record {
    silent = u.silent;
    lacking = omega (arith, on_sleep-count x chars firing now later p.scheduler id, u.lacking);
  }
  Move-Unheard x execute _ _ (heard p now n e) u = absurd (omega (arith, e, u.silent))

  Runs-Unheard :
      (x : External) (execute : Execute) (p q : Program)
      → Runs x execute p q
      → Unheard p
      → Unheard q
  Runs-Unheard x execute p _ spawned u = u
  Runs-Unheard x execute p _ (moved q r path move) u =
      Move-Unheard x execute q r move (Runs-Unheard x execute p q path u)

  run_server-Unheard :
      (x : External) (now : DateTime) (db : Db)
      → exists (has_schedule id) db.schedules ≡ false
      → Unheard (run_server x now db)
  unfolding run_server reload_all_schedules count
  run_server-Unheard x now db gone = record {
    silent = refl;
    lacking = rebuilt-Lacks x now db db.schedules [] gone refl;
  }

-- A schedule that is not in the database when the server starts is never in the scheduler's heap, and never among
-- the schedules that fire when a sleep ends, whatever is called meanwhile (a call that creates it, say): the
-- scheduler reads the schedules again on a message only, and nothing sends one.
pub run_server-unheard :
    (x : External) (execute : Execute) (start : DateTime) (db : Db) (id : String) (p : Program)
    → exists (has_schedule id) db.schedules ≡ false
    → Runs x execute (run_server x start db) p
    → (count (of_schedule id) p.scheduler.heap ≡ 0)
      × ((chars : Chars) (firing : ℕ → Firing) (now : DateTime)
          → count
              (λ i. i == id)
              (fire_due x
                (length p.scheduler.heap)
                chars
                firing
                now
                p.scheduler.heap
                p.scheduler.server).0
            ≡ 0)
run_server-unheard x execute start db id p gone path =
    let u =
      Runs-Unheard id x execute (run_server x start db) p path
        (run_server-Unheard id x start db gone) in
    (
      u.lacking,
      λ chars firing now.
          let due =
            fire_due_lem x chars firing (length p.scheduler.heap) now p.scheduler.heap
              p.scheduler.server (omega arith) in
          omega (arith, due.0 id, count-split now (of_schedule id) p.scheduler.heap, u.lacking),
    )
