-- ===== src/Worker/Executor.antt =====
-- executor.rs and the calls of client.rs: what a task comes to, and the semaphore, which is never closed.
pub mod Permits
pub mod Tasks
use khronos.Prelude.{ℕ, ◌+◌, suc, String, Bool, Option, none, some, List, [], ◌∷◌, ◌≡◌}
use khronos.Prelude.Result.{Result, ok, err}
use khronos.Prelude.Exec.{Exec}
use khronos.Values.{Value, object, field, end, string}
use khronos.External.{External, Now}
use khronos.Server.State.{Server, Status}
use khronos.Server.Worker.Handlers.{TaskMessage, report_activity_result, report_activity_failure}
use khronos.Worker.Handlers.{
  Handler, Command, Output, ActivityRegistry, get, run_handler, unregistered,
}

-- the call that ends a task: report_result or report_failure, with the activity's id
pub data Report : Type 0 where
  report_result : String → String → Report
  report_failure : String → String → Report

module _ (x : External) where
  -- `json!({"stdout": output.trim()}).to_string()`
  abbrev pub result_text : (String → String) → String → String
  result_text trim output = x.value_display (object (field "stdout" (string (trim output)) end))

  abbrev pub report_output : (String → String) → String → Result String String → Report
  report_output trim activity_id (ok output) = report_result activity_id (result_text trim output)
  report_output trim activity_id (err message) = report_failure activity_id message

  abbrev pub report_handled :
      (Command → Output) → (String → String) → TaskMessage → Option Handler → Report
  report_handled output trim task none = report_failure task.activity_id (unregistered task.name)
  report_handled output trim task (some handler) =
      report_output trim task.activity_id (run_handler output handler task.name)

  -- the spawned task; `trim` is `str::trim`
  unfoldable pub execute :
      (Command → Output) → (String → String) → ActivityRegistry → TaskMessage → Report
  execute output trim registry task = report_handled output trim task (get task.name registry)

  -- the call, as the server answers it
  abbrev pub perform : Now → Report → Exec Server Status Bool
  perform now (report_result activity_id result_json) =
      report_activity_result x now activity_id result_json
  perform now (report_failure activity_id error_message) =
      report_activity_failure x now activity_id error_message

-- what a spawned task does: it runs the handler, calls the server, and drops its permit
pub data TaskAction : Type 0 where
  handle report release : TaskAction

-- the body of the spawned task, by the handler that the registry has: the permit is dropped at its end, also where
-- it returns early
unfoldable pub body : Option Handler → List TaskAction
body none = report ∷ release ∷ []
body (some handler) = handle ∷ report ∷ release ∷ []

-- the permits that are left, and what each spawned task has still to do
pub record Executor : Type 0 where
  pub available : ℕ
  pub tasks : List (List TaskAction)

abbrev pub new_executor : ℕ → Executor
new_executor max_concurrent = record { available = max_concurrent; tasks = [] }

abbrev pub permits_after : TaskAction → ℕ → ℕ
permits_after release n = n + 1
permits_after _ n = n

-- one of the tasks does its next action
pub data Advance : List (List TaskAction) → TaskAction → List (List TaskAction) → Type 0 where
  here :
      (action : TaskAction) (rest : List TaskAction) (tasks : List (List TaskAction))
      → Advance ((action ∷ rest) ∷ tasks) action (rest ∷ tasks)
  there :
      (task : List TaskAction) (action : TaskAction) (before after : List (List TaskAction))
      → Advance before action after
      → Advance (task ∷ before) action (task ∷ after)

-- `execute` waits for a permit and spawns the task with it; the tasks go on side by side
pub data Step (registry : ActivityRegistry) : Executor → Executor → Type 0 where
  spawned :
      (e : Executor) (n : ℕ) (task : TaskMessage)
      → e.available ≡ suc n
      → Step registry e (record { available = n; tasks = body (get task.name registry) ∷ e.tasks })
  advanced :
      (e : Executor) (action : TaskAction) (tasks : List (List TaskAction))
      → Advance e.tasks action tasks
      → Step registry e (record { available = permits_after action e.available; tasks = tasks })

pub data Reachable (registry : ActivityRegistry) (e : Executor) : Executor → Type 0 where
  start : Reachable registry e e
  next : (t u : Executor) → Reachable registry e t → Step registry t u → Reachable registry e u
