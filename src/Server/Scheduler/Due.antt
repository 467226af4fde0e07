-- ===== src/Server/Scheduler/Due.antt =====
-- What the loop over the due entries fires, and what it leaves in the heap.
use khronos.Prelude.{
  ℕ, zero, suc, String, Bool, true, Option, none, some, List, [], ◌∷◌, ◌≡◌, refl, ◌≤◌, ◌<◌, ◌&&◌,
  not, arith, ltb, length, All, ◌==◌, Bool-cases, inl, inr,
}
use khronos.Values.{DateTime}
use khronos.External.{External}
use khronos.Table.{count}
use khronos.Server.State.{Server}
use khronos.Server.Definitions.{Chars}
use khronos.Server.Scheduler.Start.{Firing}
use khronos.Server.Scheduler.Process.{process_schedule}
use khronos.Server.Scheduler.Heap.{ScheduleEntry, Heap, pop}
use khronos.Server.Scheduler.Heap.Laws.{NotBefore, PopOutcome, pop_lem}
use khronos.Server.Scheduler.Run.{fire_due}

abbrev pub is_due : DateTime → ScheduleEntry → Bool
is_due now e = not (ltb now e.next_fire_time)

abbrev pub of_schedule : String → ScheduleEntry → Bool
of_schedule id e = e.schedule_id == id

module _ (now : DateTime) (p : ScheduleEntry → Bool) where
  none_due :
      (t : DateTime) (heap : Heap)
      → now < t
      → All (NotBefore t) heap
      → count (λ e. is_due now e && p e) heap ≡ 0
  unfolding count
  none_due t [] h all = refl
  none_due t (e ∷ heap) h all = ground (arith, none_due t heap h all.1, all.0)

  count_later :
      (t : DateTime) (heap : Heap)
      → now < t
      → All (NotBefore t) heap
      → count (λ e. not (is_due now e) && p e) heap ≡ count p heap
  unfolding count
  count_later t [] h all = refl
  count_later t (e ∷ heap) h all = ground (arith, count_later t heap h all.1, all.0)

module _ (x : External) (chars : Chars) (firing : ℕ → Firing) where
  -- the schedules processed one after the other
  unfoldable pub process_each : ℕ → List String → Server → Server
  process_each fuel [] s = s
  process_each zero (id ∷ ids) s = s
  process_each (suc fuel) (id ∷ ids) s =
      process_each fuel ids (process_schedule x chars (firing fuel) id s).1

  abbrev pub FiresDue : ℕ → DateTime → Heap → Server → List String × Heap × Server → Type 0
  FiresDue fuel now heap s fired =
      ((id : String)
        → count (λ i. i == id) fired.0 ≡ count (λ e. is_due now e && of_schedule id e) heap)
      × ((p : ScheduleEntry → Bool) → count p fired.1 ≡ count (λ e. not (is_due now e) && p e) heap)
      × (fired.2 ≡ process_each fuel fired.0 s)

  popped_lem :
      (fuel : ℕ) (now : DateTime) (heap : Heap) (s : Server) (o : Option (ScheduleEntry × Heap))
      → pop heap ≡ o
      → PopOutcome heap o
      → length heap ≤ suc fuel
      → ((rest : Heap) (t : Server)
          → length rest ≤ fuel
          → FiresDue fuel now rest t (fire_due x fuel chars firing now rest t))
      → FiresDue (suc fuel) now heap s (fire_due x (suc fuel) chars firing now heap s)
  unfolding fire_due process_each count
  popped_lem fuel now heap s none e h bound ih = rw (e, h) (λ id. refl, λ p. refl, refl)
  popped_lem fuel now heap s (some (entry, rest)) e h bound ih =
      elim (Bool-cases (ltb now entry.next_fire_time)) [
        | inl late ↦
            rw (e, late)
              (
                λ id.
                    ground (arith, h.0 (λ y. is_due now y && of_schedule id y), after_due id late),
                λ p. ground (arith, h.0 (λ y. not (is_due now y) && p y), later_kept p late),
                refl,
              )
        | inr due ↦
            let fired =
              ih rest (process_schedule x chars (firing fuel) entry.schedule_id s).1
                (omega (arith, h.2, bound)) in
            rw (e, due)
              (
                λ id. ground (arith, h.0 (λ y. is_due now y && of_schedule id y), fired.0 id),
                λ p. ground (arith, h.0 (λ y. not (is_due now y) && p y), fired.1 p),
                fired.2,
              )
      ]
    where
      after_due :
          (id : String)
          → ltb now entry.next_fire_time ≡ true
          → count (λ y. is_due now y && of_schedule id y) rest ≡ 0
      after_due id late = none_due now (of_schedule id) entry.next_fire_time rest (ground arith) h.1

      later_kept :
          (p : ScheduleEntry → Bool)
          → ltb now entry.next_fire_time ≡ true
          → count (λ y. not (is_due now y) && p y) rest ≡ count p rest
      later_kept p late = count_later now p entry.next_fire_time rest (ground arith) h.1

  -- With as many rounds as the heap has entries, the loop takes every entry that is due and no other: each
  -- schedule fires as often as it has due entries, the entries that stay are the others, and the server is the one
  -- where the schedules that fired are processed in that order.
  pub fire_due_lem :
      (fuel : ℕ) (now : DateTime) (heap : Heap) (s : Server)
      → length heap ≤ fuel
      → FiresDue fuel now heap s (fire_due x fuel chars firing now heap s)
  unfolding fire_due process_each count
  fire_due_lem zero now [] s bound = (λ id. refl, λ p. refl, refl)
  fire_due_lem zero now (e ∷ heap) s bound = absurd (omega (arith, bound))
  fire_due_lem (suc fuel) now heap s bound =
      popped_lem fuel now heap s (pop heap) refl (pop_lem heap) bound
        (λ rest t. fire_due_lem fuel now rest t)
