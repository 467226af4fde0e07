-- ===== src/Server/Scheduler/Once.antt =====
-- The entries of the schedules that fired are not put back.
use khronos.Prelude.{
  ℕ, String, Bool, false, List, [], ◌∷◌, ◌≡◌, refl, ◌&&◌, not, arith, length, ◌==◌,
}
use khronos.Values.{DateTime}
use khronos.External.{External}
use khronos.Table.{count}
use khronos.Db.Schema.{Db}
use khronos.Server.Definitions.{Chars}
use khronos.Server.Scheduler.Start.{Firing}
use khronos.Server.Scheduler.Heap.{ScheduleEntry, Heap}
use khronos.Server.Scheduler.Run.{
  Scheduler, update_query, update_schedule_next_fire, update_fired, fire_due, on_sleep,
}
use khronos.Server.Scheduler.Due.{is_due, of_schedule, process_each, fire_due_lem}

-- SQLite takes no backslash for a token, as its grammar documents
pub record RefusesBackslash (x : External) : Type 0 where
  pub refuses : x.sqlite_prepares update_query ≡ false

-- the schedules with a due entry are processed, and the entries that are not due are what stays
abbrev pub FiresOnce : External → Chars → (ℕ → Firing) → DateTime → Scheduler → Scheduler → Type 0
FiresOnce x chars firing now before after =
    ((p : ScheduleEntry → Bool)
      → count p after.heap ≡ count (λ e. not (is_due now e) && p e) before.heap)
    × ((ids : List String) × ((id : String)
          → count (λ i. i == id) ids ≡ count (λ e. is_due now e && of_schedule id e) before.heap)
        × (after.server ≡ process_each x chars firing (length before.heap) ids before.server))

module _ (x : External) (sqlite : RefusesBackslash x) where
  update_fired-unchanged :
      (now : DateTime) (ids : List String) (db : Db) (heap : Heap)
      → update_fired x now ids db heap ≡ heap
  unfolding update_fired update_schedule_next_fire
  update_fired-unchanged now [] db heap = refl
  update_fired-unchanged now (id ∷ ids) db heap =
      rw sqlite.refuses (update_fired-unchanged now ids db heap)

  -- When the sleep ends, every schedule with a due entry is processed, and only such, and none of them gets a
  -- next entry: SQLite refuses the statement that reads the schedule's row (its text has backslashes), so
  -- what stays in the heap are the entries that were not due.
  pub on_sleep-once :
      (chars : Chars) (firing : ℕ → Firing) (now later : DateTime) (state : Scheduler)
      → FiresOnce x chars firing now state (on_sleep x chars firing now later state)
  unfolding on_sleep
  on_sleep-once chars firing now later state =
      let fired = fire_due x (length state.heap) chars firing now state.heap state.server in
      let due =
        fire_due_lem x chars firing (length state.heap) now state.heap state.server (omega arith) in
      (
        λ p. rw (update_fired-unchanged later fired.0 fired.2.db fired.1) (due.1 p),
        (fired.0, due.0, due.2),
      )
