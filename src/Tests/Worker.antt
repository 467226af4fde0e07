-- ===== src/Tests/Worker.antt =====
-- The theorems on the worker at concrete inputs.
use khronos.Prelude.{◌*◌, ◌-◌, ◌+◌, true, false, none, some, List, [], ◌∷◌, ◌≡◌, ◌≤◌, refl, arith}
use khronos.Prelude.Result.{map_ok, map_err}
use khronos.Values.{object, end}
use khronos.Table.{find, exists, count}
use khronos.Db.Schema.{StepRow, ActivityRow, has_step, has_activity}
use khronos.Db.Activities.{get_pending_steps}
use khronos.Server.State.{internal}
use khronos.Server.Worker.Handlers.{TaskMessage, hand_out, task_of, parse_result}
use khronos.Worker.Handlers.{
  dummy, Command, Output, not_spawned, ActivityRegistry, run_handler, get,
}
use khronos.Worker.Executor.{
  execute, perform, Executor, new_executor, spawned, advanced, start, next, body, here, handle,
  report, release,
}
use khronos.Worker.Executor.Permits.{is_working, is_unfinished, working-le_max}
use khronos.Worker.Executor.Tasks.{hand_out-execute}
use khronos.Worker.Poller.{Floats, Round, task, idle, poll_error, run, start as first_poll}
use khronos.Worker.Poller.Runs.{forwarded, run_lem}
use khronos.Worker.Polling.{poll_once, poll_once-idle}
use khronos.Tests.Libraries.{libraries}
use khronos.Tests.World.{now, step_row, second_step, waiting}

abbrev charge : TaskMessage
charge = task_of libraries 1 second_step

abbrev charging : ActivityRegistry
charging = ("charge", dummy) ∷ []

-- two tasks are spawned with two permits, and the second runs its handler
abbrev one_spawned : Executor
one_spawned = record { available = 1; tasks = body (get "charge" charging) ∷ [] }

abbrev two_spawned : Executor
two_spawned = record {
  available = 0;
  tasks = body (get "charge" charging) ∷ body (get "charge" charging) ∷ [];
}

abbrev one_handled : Executor
one_handled = record {
  available = 0;
  tasks = (report ∷ release ∷ []) ∷ body (get "charge" charging) ∷ [];
}

working-le_max_example :
    (count is_working one_handled.tasks ≤ 2)
    × (one_handled.available + count is_unfinished one_handled.tasks ≡ 2)
unfolding body
working-le_max_example = working-le_max charging 2 one_handled (
    next two_spawned one_handled
      (next one_spawned two_spawned
        (next _ one_spawned start (spawned (new_executor 2) 1 charge refl))
        (spawned one_spawned 0 charge refl))
      (advanced two_spawned handle ((report ∷ release ∷ []) ∷ body (get "charge" charging) ∷ [])
        (here handle (report ∷ release ∷ []) (body (get "charge" charging) ∷ []))))

abbrev no_processes : Command → Output
no_processes c = not_spawned "no process"

hand_out-execute_example :
    (r : StepRow) × (a : ActivityRow) × (find
        (has_step "2")
        (perform libraries now
          (execute libraries no_processes (λ s. s) charging charge)
          (hand_out libraries now 1 second_step waiting).1).1.db.workflow_steps
      ≡ some r)
    × (find
          (has_activity "1")
          (perform libraries now
            (execute libraries no_processes (λ s. s) charging charge)
            (hand_out libraries now 1 second_step waiting).1).1.db.activities
        ≡ some a)
    × (r.state ≡ "completed")
    × (r.result_json ≡ some "{}")
    × (a.state ≡ "completed")
unfolding find exists run_handler parse_result
hand_out-execute_example =
    hand_out-execute libraries no_processes (λ s. s) charging now now 1 second_step waiting
      (step_row "2" 1 "pending" 0) dummy "Dummy result for activity charge" "{}" (object end) refl
      refl refl refl refl refl

abbrev floats : Floats
floats = record {
  mul_f32 = λ d f. 2 * d;
  as_secs_f64 = λ d. d;
  from_secs_f64 = λ s. s;
  mul = λ a b. 0;
  sub = λ a b. a - b;
  div = λ a b. 0;
  max = λ a b. a;
  u64_as_f64 = λ n. n;
}

abbrev polls : List Round
polls =
    (poll_error, true)
    ∷ (task charge, true)
    ∷ (idle, true)
    ∷ (poll_error, true)
    ∷ (poll_error, true)
    ∷ []

run_lem_example :
    ((run floats polls first_poll).2 ≡ false)
    × (forwarded (run floats polls first_poll).0 ≡ charge ∷ [])
    × ((run floats polls first_poll).1.reconnect_attempt ≡ 2)
unfolding exists
run_lem_example = run_lem floats polls (omega arith)

poll_once-idle_example : poll_once libraries now 1 "default" waiting ≡ (
  map_err
      (internal "Failed to get pending steps")
      (map_ok (λ _. none) (get_pending_steps libraries now.sql waiting.db)),
  waiting,
)
poll_once-idle_example = poll_once-idle libraries now 1 "default" waiting
