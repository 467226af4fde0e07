-- ===== src/Server/Scheduler/Heap/Laws.antt =====
-- `pop` takes one entry off the heap, one with the earliest time, and keeps the others.
use khronos.Prelude.{
  suc, Bool, true, false, Option, none, some, [], ◌∷◌, ◌≡◌, refl, ◌≤◌, arith, length, All,
  Bool-cases, inl, inr,
}
use khronos.Values.{DateTime}
use khronos.Table.{count}
use khronos.Table.Keys.{All-mono}
use khronos.Server.Scheduler.Heap.{ScheduleEntry, Heap, entry_leb, lesser, pop}

abbrev pub NotBefore : DateTime → ScheduleEntry → Type 0
NotBefore t e = t ≤ e.next_fire_time

abbrev pub PopOutcome : Heap → Option (ScheduleEntry × Heap) → Type 0
PopOutcome heap none = heap ≡ []
PopOutcome heap (some (least, rest)) =
    ((p : ScheduleEntry → Bool) → count p heap ≡ count p (least ∷ rest))
    × All (NotBefore least.next_fire_time) rest
    × (length heap ≡ suc (length rest))

entry_leb_time : (a b : ScheduleEntry) → entry_leb a b ≡ true → a.next_fire_time ≤ b.next_fire_time
entry_leb_time a b h = ground arith

later_time : (a b : ScheduleEntry) → entry_leb a b ≡ false → b.next_fire_time ≤ a.next_fire_time
later_time a b h = ground arith

trans_time :
    (t u : DateTime) → t ≤ u → (heap : Heap) → All (NotBefore u) heap → All (NotBefore t) heap
trans_time t u h heap all =
    All-mono (NotBefore u) (NotBefore t) (λ e k. omega (arith, h, k)) heap all

lesser_lem :
    (entry : ScheduleEntry) (heap : Heap) (o : Option (ScheduleEntry × Heap))
    → PopOutcome heap o
    → PopOutcome (entry ∷ heap) (some (lesser entry o))
unfolding count
lesser_lem entry heap none h = rw h (λ p. refl, tt, refl)
lesser_lem entry heap (some (least, rest)) h = elim (Bool-cases (entry_leb entry least)) [
  | inl e ↦ rw e (
    λ p. ground (arith, h.0 p),
    (
      entry_leb_time entry least e,
      trans_time entry.next_fire_time least.next_fire_time (entry_leb_time entry least e) rest h.1,
    ),
    omega (arith, h.2),
  )
  | inr e ↦ rw e (λ p. ground (arith, h.0 p), (later_time entry least e, h.1), omega (arith, h.2))
]

pub pop_lem : (heap : Heap) → PopOutcome heap (pop heap)
unfolding pop
pop_lem [] = refl
pop_lem (entry ∷ heap) = lesser_lem entry heap (pop heap) (pop_lem heap)
