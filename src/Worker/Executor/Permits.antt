-- ===== src/Worker/Executor/Permits.antt =====
-- How many tasks are at work at once.
use khronos.Prelude.{
  ℕ, ◌+◌, ◌≤◌, Option, none, some, List, [], ◌∷◌, ◌≡◌, refl, Bool, true, false, arith, All,
}
use khronos.Table.{count}
use khronos.Worker.Handlers.{Handler, ActivityRegistry, get}
use khronos.Worker.Executor.{
  TaskAction, handle, report, release, body, Executor, new_executor, permits_after, Advance, here,
  there, Step, spawned, advanced, Reachable, start, next,
}

-- a task that runs a handler, or has still to run one or to report
abbrev pub is_working : List TaskAction → Bool
is_working [] = false
is_working (release ∷ rest) = is_working rest
is_working (handle ∷ rest) = true
is_working (report ∷ rest) = true

-- a task that has not ended
abbrev pub is_unfinished : List TaskAction → Bool
is_unfinished [] = false
is_unfinished (action ∷ rest) = true

-- the permit is dropped at the end, and not before
abbrev DropsLast : List TaskAction → Type 0
DropsLast [] = Unit
DropsLast (release ∷ rest) = rest ≡ []
DropsLast (handle ∷ rest) = (is_unfinished rest ≡ true) × DropsLast rest
DropsLast (report ∷ rest) = (is_unfinished rest ≡ true) × DropsLast rest

body-DropsLast : (handler : Option Handler) → DropsLast (body handler)
unfolding body
body-DropsLast none = (refl, refl)
body-DropsLast (some handler) = (refl, (refl, refl))

body_unfinished : (handler : Option Handler) → is_unfinished (body handler) ≡ true
unfolding body
body_unfinished none = refl
body_unfinished (some handler) = refl

-- an action drops a permit exactly if it ends its task
Advance-count :
    (before after : List (List TaskAction)) (action : TaskAction) (n : ℕ)
    → Advance before action after
    → All DropsLast before
    → permits_after action n + count is_unfinished after ≡ n + count is_unfinished before
unfolding count
Advance-count _ _ _ n (here release rest tasks) all =
    let last : rest ≡ [] = all.0 in rw last (omega arith)
Advance-count _ _ _ n (here handle rest tasks) all = rw all.0.0 (omega arith)
Advance-count _ _ _ n (here report rest tasks) all = rw all.0.0 (omega arith)
Advance-count _ _ _ n (there task action before after step) all =
    ground (arith, Advance-count before after action n step all.1)

Advance-DropsLast :
    (before after : List (List TaskAction)) (action : TaskAction)
    → Advance before action after
    → All DropsLast before
    → All DropsLast after
Advance-DropsLast _ _ _ (here release rest tasks) all =
    let last : rest ≡ [] = all.0 in (rw last tt, all.1)
Advance-DropsLast _ _ _ (here handle rest tasks) all = (all.0.1, all.1)
Advance-DropsLast _ _ _ (here report rest tasks) all = (all.0.1, all.1)
Advance-DropsLast _ _ _ (there task action before after step) all =
    (all.0, Advance-DropsLast before after action step all.1)

-- every permit is left or has a task, and each task drops its own at its end
record Accounted (max : ℕ) (e : Executor) : Type 0 where
  sum : e.available + count is_unfinished e.tasks ≡ max
  last : All DropsLast e.tasks

module _ (registry : ActivityRegistry) (max : ℕ) where
  Step-Accounted : (e f : Executor) → Step registry e f → Accounted max e → Accounted max f
  unfolding count
  Step-Accounted _ _ (spawned e n task left) h = record {
    sum = rw (body_unfinished (get task.name registry)) (omega (arith, h.sum, left));
    last = (body-DropsLast (get task.name registry), h.last);
  }
  Step-Accounted _ _ (advanced e action tasks step) h = record {
    sum = omega (arith, Advance-count e.tasks tasks action e.available step h.last, h.sum);
    last = Advance-DropsLast e.tasks tasks action step h.last;
  }

  Reachable-Accounted :
      (e f : Executor) → Accounted max e → Reachable registry e f → Accounted max f
  Reachable-Accounted e _ h start = h
  Reachable-Accounted e _ h (next t u path step) =
      Step-Accounted t u step (Reachable-Accounted e t h path)

working_unfinished : (task : List TaskAction) → is_working task ≡ true → is_unfinished task ≡ true
working_unfinished [] h = h
working_unfinished (action ∷ rest) h = refl

working-count :
    (tasks : List (List TaskAction)) → count is_working tasks ≤ count is_unfinished tasks
unfolding count
working-count [] = omega arith
working-count (task ∷ tasks) = ground (arith, working_unfinished task, working-count tasks)

-- However tasks arrive and however they go on side by side, with handlers or without: an executor never has more
-- of them at work, running a handler or with a call to the server still to make, than the maximum that it was made
-- with; and the permits that are left and the tasks that have not ended add up to that maximum, so no permit is
-- lost or dropped twice.
pub working-le_max :
    (registry : ActivityRegistry) (max : ℕ) (e : Executor)
    → Reachable registry (new_executor max) e
    → (count is_working e.tasks ≤ max) × (e.available + count is_unfinished e.tasks ≡ max)
unfolding count
working-le_max registry max e path =
    let h =
      Reachable-Accounted registry max (new_executor max) e
        (record { sum = omega arith; last = tt }) path in
    (omega (arith, working-count e.tasks, h.sum), h.sum)
