-- ===== src/Server/Scheduler/Sleep.antt =====
-- How long the scheduler sleeps.
use khronos.Prelude.{
  ◌∙◌, ℕ, ltb, leb, sym, Bool, true, none, some, Option, [], ◌∷◌, ◌≡◌, refl, ◌≤◌, ◌<◌, ◌+◌, ◌-◌,
  ◌^◌, not, arith, All,
}
use khronos.Values.{DateTime}
use khronos.Table.{exists, count}
use khronos.Table.Quantifiers.{count-exists, count-All, All-count}
use khronos.Table.Keys.{All-mono}
use khronos.Server.Scheduler.Heap.{ScheduleEntry, Heap, pop}
use khronos.Server.Scheduler.Heap.Laws.{NotBefore, PopOutcome, pop_lem}
use khronos.Server.Scheduler.Run.{sleep_duration, at_least, raw_duration}

raw_bounds :
    (now t : DateTime)
    → (raw_duration now (some t) ≤ t - now)
      × (t < now + 2 ^ 63 → raw_duration now (some t) ≡ t - now)
raw_bounds now t = (ground arith, λ h. ground arith)

-- some entry is due when the sleep ends, which is half a second from now or no later than any entry's time
abbrev pub WakesFor : DateTime → ℕ → Heap → Type 0
WakesFor now sleep heap =
    (500_000_000 ≤ sleep)
    × All (λ e. now + sleep ≤ at_least (now + 500_000_000) e.next_fire_time) heap
    × (exists (λ e. leb e.next_fire_time (now + sleep)) heap ≡ true)

popped_exists :
    (p : ScheduleEntry → Bool) (heap : Heap) → ltb 0 (count p heap) ≡ true → exists p heap ≡ true
popped_exists p heap h = sym (count-exists p heap) ∙ h

woken :
    (now t : DateTime) (heap : Heap) (sleep : ℕ)
    → now + sleep ≤ at_least (now + 500_000_000) t
    → All (NotBefore t) heap
    → All (λ e. now + sleep ≤ at_least (now + 500_000_000) e.next_fire_time) heap
woken now t heap sleep h all =
    All-mono (NotBefore t) (λ e. now + sleep ≤ at_least (now + 500_000_000) e.next_fire_time)
      (λ e k. ground arith) heap all

raw_sleep :
    (now : DateTime) (heap : Heap) (e : ScheduleEntry) (rest : Heap)
    → pop heap ≡ some (e, rest)
    → sleep_duration now heap ≡ at_least 500_000_000 (raw_duration now (some e.next_fire_time))
unfolding sleep_duration
raw_sleep now heap e rest h = rw h

module _ (now : DateTime) where
  sleep_popped :
      (heap : Heap) (e : ScheduleEntry) (rest : Heap)
      → PopOutcome heap (some (e, rest))
      → All (λ e. e.next_fire_time < now + 2 ^ 63) heap
      → WakesFor now (at_least 500_000_000 (raw_duration now (some e.next_fire_time))) heap
  unfolding count
  sleep_popped heap e rest h near =
      let sleep = at_least 500_000_000 (raw_duration now (some e.next_fire_time)) in
      let bounds = raw_bounds now e.next_fire_time in
      let in_range : e.next_fire_time < now + 2 ^ 63 = ground (
        arith,
        count-All (λ e. e.next_fire_time < now + 2 ^ 63)
            (λ y. not (ltb y.next_fire_time (now + 2 ^ 63))) (λ r k. ground arith) heap near,
        h.0 (λ y. not (ltb y.next_fire_time (now + 2 ^ 63))),
      ) in
      (
        ground arith,
        All-count (λ e. now + sleep ≤ at_least (now + 500_000_000) e.next_fire_time)
            (λ y. not (leb (now + sleep) (at_least (now + 500_000_000) y.next_fire_time)))
            (λ r k. ground arith) heap
            (h.0 (λ y. not (leb (now + sleep) (at_least (now + 500_000_000) y.next_fire_time)))
              ∙ count-All (λ e. now + sleep ≤ at_least (now + 500_000_000) e.next_fire_time)
                  (λ y. not (leb (now + sleep) (at_least (now + 500_000_000) y.next_fire_time)))
                  (λ r k. ground arith) (e ∷ rest)
                  (
                    ground (arith, bounds.0),
                    woken now e.next_fire_time rest sleep (ground (arith, bounds.0)) h.1,
                  )),
        popped_exists (λ y. leb y.next_fire_time (now + sleep)) heap
            (ground (arith, bounds.1 in_range, h.0 (λ y. leb y.next_fire_time (now + sleep)))),
      )

  woken_heap :
      (heap : Heap) (o : Option (ScheduleEntry × Heap))
      → pop heap ≡ o
      → PopOutcome heap o
      → (heap ≡ [] → ⊥)
      → All (λ e. e.next_fire_time < now + 2 ^ 63) heap
      → WakesFor now (sleep_duration now heap) heap
  woken_heap heap none e h full near = absurd (full h)
  woken_heap heap (some (least, rest)) e h full near =
      rw (raw_sleep now heap least rest e) (sleep_popped heap least rest h near)

  -- The sleep for a heap that is not empty lasts half a second or more; when it ends, some entry is due; and for
  -- each entry it ends no later than half a second from now or than the entry's time, whichever is later. The
  -- times are to be less than 292 years (2^63 nanoseconds) ahead.
  pub sleep_duration_lem :
      (e : ScheduleEntry) (heap : Heap)
      → All (λ e. e.next_fire_time < now + 2 ^ 63) (e ∷ heap)
      → WakesFor now (sleep_duration now (e ∷ heap)) (e ∷ heap)
  sleep_duration_lem e heap near =
      woken_heap (e ∷ heap) (pop (e ∷ heap)) refl (pop_lem (e ∷ heap)) (λ h. cc) near
