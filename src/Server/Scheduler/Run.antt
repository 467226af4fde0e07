-- ===== src/Server/Scheduler/Run.antt =====
-- The loop of the scheduler: the heap rebuilt from the table, the sleep until its first entry, the schedules that
-- are due, and the next time of those that fired.
use khronos.Prelude.{
  ℕ, zero, suc, ◌+◌, ◌-◌, ◌/◌, ◌*◌, ◌%◌, ◌^◌, String, Option, none, some, List, [], ◌∷◌, ◌==◌, ltb,
  leb, length, if◌then◌else◌,
}
use mathlib.Core.Option
use khronos.Prelude.Result.{Result, ok, err, ◌>>=◌}
use khronos.Prelude.Exec.{Exec}
use khronos.Values.{DateTime}
use khronos.External.{External}
use khronos.Table.{find}
use khronos.Db.Error.{DbError}
use khronos.Db.Schema.{ScheduleRow, Db, has_schedule}
use khronos.Server.State.{Server}
use khronos.Server.Definitions.{Chars}
use khronos.Server.Scheduler.Times.{info_of, next_fire}
use khronos.Server.Scheduler.Start.{Firing}
use khronos.Server.Scheduler.Process.{process_schedule}
use khronos.Server.Scheduler.Heap.{ScheduleEntry, Heap, push, pop}

-- the database that the server shares, and the heap
pub record Scheduler : Type 0 where
  pub server : Server
  pub heap : Heap

-- `entry(id).and_modify(..).or_insert(t)`: the map from a schedule's id to its earliest time
unfoldable pub keep_earliest : String → DateTime → Heap → Heap
keep_earliest id t [] = record { next_fire_time = t; schedule_id = id } ∷ []
keep_earliest id t (e ∷ fires) =
    let rest = keep_earliest id t fires in
    if e.schedule_id == id
    then (if ltb t e.next_fire_time then record e { next_fire_time = t } else e) ∷ fires
    else e ∷ rest

abbrev pub with_next : String → Option DateTime → Heap → Heap
with_next id none fires = fires
with_next id (some t) fires = keep_earliest id t fires

-- the statement of update_schedule_next_fire: the backslashes and line ends are in its text
abbrev pub update_query : String
update_query =
    "SELECT schedule_id, namespace, spec_type, cron_expressions, \\\n             interval_seconds, overlap_policy, action_workflow_name, \\\n             action_task_queue, action_args_json, timeouts_json \\\n             FROM schedules WHERE schedule_id = ?1"

module _ (x : External) where
  -- the loop over the rows, which an error ends
  unfoldable pub next_fires : DateTime → Db → List ScheduleRow → Heap → Result Heap DbError
  next_fires now db [] fires = ok fires
  next_fires now db (r ∷ rows) fires = next_fire x (info_of x r) now db >>= λ next.
      next_fires now db rows (with_next r.schedule_id next fires)

  abbrev pub rebuilt : Heap → Result Heap DbError → Result (Unit {0}) DbError × Heap
  rebuilt heap (ok fires) = (ok tt, fires)
  rebuilt heap (err e) = (err e, heap)

  -- an error leaves the heap as it was
  unfoldable pub reload_all_schedules : DateTime → Db → Exec Heap DbError (Unit {0})
  unfolding next_fires
  reload_all_schedules now db heap = rebuilt heap (next_fires now db db.schedules [])

  abbrev pub pushed : String → Result (Option DateTime) DbError → Exec Heap DbError (Unit {0})
  pushed schedule_id (err e) heap = (err e, heap)
  pushed schedule_id (ok none) heap = (ok tt, heap)
  pushed schedule_id (ok (some t)) heap =
      (ok tt, push (record { next_fire_time = t; schedule_id = schedule_id }) heap)

  -- a statement that SQLite does not compile is the error of `query_row`, as a missing row is
  abbrev pub update_row : String → Db → Option ScheduleRow
  update_row schedule_id db =
      if x.sqlite_prepares update_query then find (has_schedule schedule_id) db.schedules else none

  abbrev pub pushed_row : DateTime → String → Db → Option ScheduleRow → Exec Heap DbError (Unit {0})
  pushed_row now schedule_id db none heap = (ok tt, heap)
  pushed_row now schedule_id db (some r) heap =
      pushed schedule_id (next_fire x (info_of x r) now db) heap

  unfoldable pub update_schedule_next_fire : DateTime → String → Db → Exec Heap DbError (Unit {0})
  update_schedule_next_fire now schedule_id db heap =
      pushed_row now schedule_id db (update_row schedule_id db) heap

  -- the loop over the ids that fired, which logs an error and goes on
  unfoldable pub update_fired : DateTime → List String → Db → Heap → Heap
  unfolding update_schedule_next_fire
  update_fired now [] db heap = heap
  update_fired now (id ∷ ids) db heap =
      update_fired now ids db (update_schedule_next_fire now id db heap).1

  -- the body of the loop for what `pop` gave; `next` is the rest of the loop
  abbrev pub fire_popped :
      Chars
      → Firing
      → DateTime
      → (Heap → Server → List String × Heap × Server)
      → Server
      → Option (ScheduleEntry × Heap)
      → List String × Heap × Server
  fire_popped chars f now next s none = ([], [], s)
  fire_popped chars f now next s (some (entry, rest)) =
      let fired = next rest (process_schedule x chars f entry.schedule_id s).1 in
      if ltb now entry.next_fire_time
      then ([], push entry rest, s)
      else (entry.schedule_id ∷ fired.0, fired.1, fired.2)

  -- `while let Some(entry) = heap.pop()`, with the ids that fired; `fuel` bounds the rounds, and a heap of
  -- n entries has n at most. `firing` gives the clock and the UUIDs of a round, counted down with the fuel.
  unfoldable pub fire_due :
      (fuel : ℕ) → Chars → (ℕ → Firing) → DateTime → Heap → Server → List String × Heap × Server
  fire_due zero chars firing now heap s = ([], heap, s)
  fire_due (suc fuel) chars firing now heap s =
      fire_popped chars (firing fuel) now (fire_due fuel chars firing now) s (pop heap)

  -- the first branch of the select, with the clock at its start and at its end
  unfoldable pub on_sleep : Chars → (ℕ → Firing) → DateTime → DateTime → Scheduler → Scheduler
  unfolding fire_due update_fired
  on_sleep chars firing now later state =
      let fired = fire_due (length state.heap) chars firing now state.heap state.server in
      record { server = fired.2; heap = update_fired later fired.0 fired.2.db fired.1 }

  -- the second branch: the heap is rebuilt whatever was received
  unfoldable pub on_change : DateTime → Scheduler → Scheduler
  unfolding reload_all_schedules
  on_change now state = record state {
    heap = (reload_all_schedules now state.server.db state.heap).1;
  }

-- the nanoseconds of the sleep: at least half a second, a year for an empty heap. `num_nanoseconds` is
-- `None` where they are no i64.
abbrev pub raw_duration : DateTime → Option DateTime → ℕ
raw_duration now none = 365 * 24 * 60 * 60 * 1_000_000_000
raw_duration now (some fire_time) =
    let duration = fire_time - now in
    let secs = duration / 1_000_000_000 in
    let nanos = if ltb duration (2 ^ 63) then duration % 1_000_000_000 else 0 in
    secs * 1_000_000_000 + nanos

abbrev pub at_least : ℕ → ℕ → ℕ
at_least a b = if leb a b then b else a

unfoldable pub sleep_duration : DateTime → Heap → ℕ
sleep_duration now heap = at_least 500_000_000 (
    raw_duration now
      (Option.map (λ (popped : ScheduleEntry × Heap). popped.0.next_fire_time) (pop heap)))
