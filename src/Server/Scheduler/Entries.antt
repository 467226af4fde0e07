-- ===== src/Server/Scheduler/Entries.antt =====
-- How often a schedule is in the heap.
use khronos.Prelude.{
  ℕ, String, Bool, false, Option, none, some, List, [], ◌∷◌, ◌≡◌, refl, ◌≤◌, ◌+◌, ◌&&◌, not, ◌==◌,
  arith, length, Bool-cases, inl, inr, if◌then◌else◌, eq_iff, eq_refl, sym,
}
use khronos.Prelude.Result.{Result, ok, err, ◌>>=◌}
use khronos.Values.{DateTime}
use khronos.External.{External}
use khronos.Table.{count}
use khronos.Db.Error.{DbError}
use khronos.Db.Schema.{ScheduleRow, Db}
use khronos.Server.State.{Server}
use khronos.Server.Definitions.{Chars}
use khronos.Server.Scheduler.Times.{info_of, next_fire}
use khronos.Server.Scheduler.Start.{Firing}
use khronos.Server.Scheduler.Heap.{ScheduleEntry, Heap}
use khronos.Server.Scheduler.Run.{
  Scheduler, keep_earliest, with_next, rebuilt, next_fires, reload_all_schedules, pushed,
  pushed_row, update_row, update_schedule_next_fire, update_fired, fire_due, on_sleep, on_change,
}
use khronos.Server.Scheduler.Due.{is_due, of_schedule, fire_due_lem}

abbrev pub AtMostOnce : Heap → Type 0
AtMostOnce heap = (id : String) → count (of_schedule id) heap ≤ 1

-- the loop's steps, and whatever the other tasks do to the server between them
pub data LoopStep (x : External) : Scheduler → Scheduler → Type 0 where
  slept :
      (state : Scheduler) (chars : Chars) (firing : ℕ → Firing) (now later : DateTime)
      → LoopStep x state (on_sleep x chars firing now later state)
  changed : (state : Scheduler) (now : DateTime) → LoopStep x state (on_change x now state)
  others : (state : Scheduler) (s : Server) → LoopStep x state (record state { server = s })

pub data Looped (x : External) (state : Scheduler) : Scheduler → Type 0 where
  begun : Looped x state state
  round : (t u : Scheduler) → Looped x state t → LoopStep x t u → Looped x state u

pub keep_other :
    (k id : String) (t : DateTime) (fires : Heap)
    → (k == id) ≡ false
    → count (of_schedule id) (keep_earliest k t fires) ≡ count (of_schedule id) fires
unfolding keep_earliest count
keep_other k id t [] h = rw h refl
keep_other k id t (e ∷ fires) h =
    ground (
      arith,
      keep_other k id t fires h,
      eq_iff e.schedule_id k,
      eq_iff e.schedule_id id,
      eq_iff k id,
    )

keep_same :
    (k : String) (t : DateTime) (fires : Heap)
    → count (of_schedule k) fires ≤ 1
    → count (of_schedule k) (keep_earliest k t fires) ≤ 1
unfolding keep_earliest count
keep_same k t [] h = rw (eq_refl k) (omega arith)
keep_same k t (e ∷ fires) h = ground (arith, keep_same k t fires)

keep_earliest-AtMostOnce :
    (k : String) (t : DateTime) (fires : Heap)
    → AtMostOnce fires
    → AtMostOnce (keep_earliest k t fires)
keep_earliest-AtMostOnce k t fires once id = elim (Bool-cases (k == id)) [
  | inl same ↦ rw (sym ((eq_iff k id).0 same)) (keep_same k t fires (once k))
  | inr other ↦ rw (keep_other k id t fires other) (once id)
]

with_next-AtMostOnce :
    (k : String) (next : Option DateTime) (fires : Heap)
    → AtMostOnce fires
    → AtMostOnce (with_next k next fires)
with_next-AtMostOnce k none fires once = once
with_next-AtMostOnce k (some t) fires once = keep_earliest-AtMostOnce k t fires once

-- one entry more, of the schedule `k`, at most
abbrev Grows : String → Heap → Heap → Type 0
Grows k heap after =
    (id : String)
    → count (of_schedule id) after ≤ count (of_schedule id) heap + (if k == id then 1 else 0)

module _ (x : External) where
  next-AtMostOnce :
      (heap : Heap) (now : DateTime) (db : Db) (r : ScheduleRow) (rows : List ScheduleRow)
      (fires : Heap) (next : Result (Option DateTime) DbError)
      → AtMostOnce heap
      → AtMostOnce fires
      → ((later : Heap)
          → AtMostOnce later
          → AtMostOnce (rebuilt x heap (next_fires x now db rows later)).1)
      → AtMostOnce
          (rebuilt x heap
            (next >>= λ o. next_fires x now db rows (with_next r.schedule_id o fires))).1
  next-AtMostOnce heap now db r rows fires (err e) old new ih = old
  next-AtMostOnce heap now db r rows fires (ok o) old new ih =
      ih (with_next r.schedule_id o fires) (with_next-AtMostOnce r.schedule_id o fires new)

  rebuilt-AtMostOnce :
      (heap : Heap) (now : DateTime) (db : Db) (rows : List ScheduleRow) (fires : Heap)
      → AtMostOnce heap
      → AtMostOnce fires
      → AtMostOnce (rebuilt x heap (next_fires x now db rows fires)).1
  unfolding next_fires
  rebuilt-AtMostOnce heap now db [] fires old new = new
  rebuilt-AtMostOnce heap now db (r ∷ rows) fires old new =
      next-AtMostOnce heap now db r rows fires (next_fire x (info_of x r) now db) old new
        (λ later once. rebuilt-AtMostOnce heap now db rows later old once)

  pushed-Grows :
      (k : String) (next : Result (Option DateTime) DbError) (heap : Heap)
      → Grows k heap (pushed x k next heap).1
  unfolding count
  pushed-Grows k (err e) heap id = ground arith
  pushed-Grows k (ok none) heap id = ground arith
  pushed-Grows k (ok (some t)) heap id = ground arith

  pushed_row-Grows :
      (now : DateTime) (k : String) (db : Db) (o : Option ScheduleRow) (heap : Heap)
      → Grows k heap (pushed_row x now k db o heap).1
  pushed_row-Grows now k db none heap id = ground arith
  pushed_row-Grows now k db (some r) heap id =
      pushed-Grows k (next_fire x (info_of x r) now db) heap id

  update_fired-count :
      (now : DateTime) (ids : List String) (db : Db) (heap : Heap) (id : String)
      → count (of_schedule id) (update_fired x now ids db heap)
        ≤ count (of_schedule id) heap + count (λ i. i == id) ids
  unfolding update_fired update_schedule_next_fire count
  update_fired-count now [] db heap id = omega arith
  update_fired-count now (k ∷ ids) db heap id = ground (
    arith,
    update_fired-count now ids db (pushed_row x now k db (update_row x k db) heap).1 id,
    pushed_row-Grows now k db (update_row x k db) heap id,
  )

pub count-split :
    (now : DateTime) (p : ScheduleEntry → Bool) (heap : Heap)
    → count (λ e. is_due now e && p e) heap + count (λ e. not (is_due now e) && p e) heap
      ≡ count p heap
unfolding count
count-split now p [] = refl
count-split now p (e ∷ heap) = ground (arith, count-split now p heap)

module _ (x : External) where
  -- a sleep that ends adds no entry: what fires was there
  pub on_sleep-count :
      (chars : Chars) (firing : ℕ → Firing) (now later : DateTime) (state : Scheduler) (id : String)
      → count (of_schedule id) (on_sleep x chars firing now later state).heap
        ≤ count (of_schedule id) state.heap
  unfolding on_sleep
  on_sleep-count chars firing now later state id =
      let fired = fire_due x (length state.heap) chars firing now state.heap state.server in
      let due =
        fire_due_lem x chars firing (length state.heap) now state.heap state.server (omega arith) in
      omega (
        arith,
        update_fired-count x later fired.0 fired.2.db fired.1 id,
        due.0 id,
        due.1 (of_schedule id),
        count-split now (of_schedule id) state.heap,
      )

  on_change-AtMostOnce :
      (now : DateTime) (state : Scheduler)
      → AtMostOnce state.heap
      → AtMostOnce (on_change x now state).heap
  unfolding on_change reload_all_schedules count
  on_change-AtMostOnce now state once =
      rebuilt-AtMostOnce x state.heap now state.server.db state.server.db.schedules [] once
        (λ id. omega arith)

  step-AtMostOnce : {t u : Scheduler} → LoopStep x t u → AtMostOnce t.heap → AtMostOnce u.heap
  step-AtMostOnce (slept state chars firing now later) once =
      λ id. omega (arith, on_sleep-count chars firing now later state id, once id)
  step-AtMostOnce (changed state now) once = on_change-AtMostOnce now state once
  step-AtMostOnce (others state s) once = once

  -- Wherever the loop gets from a heap that holds no schedule twice (the empty heap, say), with other tasks that
  -- change the server between its rounds, the heap holds no schedule twice.
  pub Looped-AtMostOnce :
      (state : Scheduler) {u : Scheduler}
      → Looped x state u
      → AtMostOnce state.heap
      → AtMostOnce u.heap
  Looped-AtMostOnce state begun once = once
  Looped-AtMostOnce state (round t u loop step) once =
      step-AtMostOnce step (Looped-AtMostOnce state loop once)
