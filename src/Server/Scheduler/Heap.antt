-- ===== src/Server/Scheduler/Heap.antt =====
-- The min-heap of next fire times. `BinaryHeap` keeps a multiset, and `pop` gives a least entry of it.
pub mod Laws
use khronos.Prelude.{
  String, Bool, Option, none, some, List, [], ◌∷◌, ◌&&◌, ◌||◌, ltb, eqb, text_leb, if◌then◌else◌,
}
use khronos.Values.{DateTime}

pub record ScheduleEntry : Type 0 where
  pub next_fire_time : DateTime
  pub schedule_id : String

abbrev pub Heap : Type 0
Heap = List ScheduleEntry

-- `Ord::cmp`: by time, then by id
abbrev pub entry_leb : ScheduleEntry → ScheduleEntry → Bool
entry_leb a b =
    ltb a.next_fire_time b.next_fire_time
    || (eqb a.next_fire_time b.next_fire_time && text_leb a.schedule_id b.schedule_id)

abbrev pub push : ScheduleEntry → Heap → Heap
push entry heap = entry ∷ heap

-- the lesser of an entry and what a heap's `pop` gives
abbrev pub lesser : ScheduleEntry → Option (ScheduleEntry × Heap) → ScheduleEntry × Heap
lesser entry none = (entry, [])
lesser entry (some (least, rest)) =
    if entry_leb entry least then (entry, least ∷ rest) else (least, entry ∷ rest)

unfoldable pub pop : Heap → Option (ScheduleEntry × Heap)
pop [] = none
pop (entry ∷ heap) = some (lesser entry (pop heap))
