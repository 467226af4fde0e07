-- ===== src/Worker/Loop.antt =====
-- `Worker::run` of worker.rs: the loop that hands the poller's tasks to the executor until a signal comes or the
-- channel closes. The signals' registration and the connection are left out; main.rs gives the configuration.
use khronos.Prelude.{
  String, Bool, true, false, Option, none, some, List, [], ◌∷◌, ◌++◌, ◌≡◌, refl, map, ap,
}
use mathlib.Core.List.{append-nil}
use khronos.External.{External}
use khronos.Server.Worker.Handlers.{TaskMessage}
use khronos.Worker.Handlers.{Command, Output, ActivityRegistry, register_default_handlers}
use khronos.Worker.Executor.{Report, execute, Executor, new_executor}
use khronos.Worker.Polling.{WorkerConfig}

-- what the select takes first
pub data Input : Type 0 where
  sigint : Input
  sigterm : Input
  received : Option TaskMessage → Input

-- the registry and the executor before the loop; `home` is the variable HOME, or its default
pub record Worker : Type 0 where
  pub registry : ActivityRegistry
  pub executor : Executor

abbrev pub new_worker : String → WorkerConfig → Worker
new_worker home config = record {
  registry = register_default_handlers home [];
  executor = new_executor config.max_concurrent;
}

-- the tasks given to `execute`, and whether the loop has ended
unfoldable pub dispatched : List Input → List TaskMessage × Bool
dispatched [] = ([], false)
dispatched (sigint ∷ inputs) = ([], true)
dispatched (sigterm ∷ inputs) = ([], true)
dispatched (received none ∷ inputs) = ([], true)
dispatched (received (some t) ∷ inputs) = let rest = dispatched inputs in (t ∷ rest.0, rest.1)

module _ (x : External) where
  -- what the tasks report, each to the server
  unfoldable pub run_worker :
      (Command → Output) → (String → String) → Worker → List Input → List Report
  unfolding dispatched
  run_worker output trim worker inputs =
      map (execute x output trim worker.registry) (dispatched inputs).0

-- the inputs that end the loop
abbrev pub Stops : Input → Type 0
Stops sigint = Unit
Stops sigterm = Unit
Stops (received none) = Unit
Stops (received (some t)) = ⊥

abbrev arrivals : List TaskMessage → List Input
arrivals [] = []
arrivals (t ∷ tasks) = received (some t) ∷ arrivals tasks

dispatched-stop :
    (stop : Input) (later : List Input) → Stops stop → dispatched (stop ∷ later) ≡ ([], true)
unfolding dispatched
dispatched-stop sigint later s = refl
dispatched-stop sigterm later s = refl
dispatched-stop (received none) later s = refl
dispatched-stop (received (some t)) later s = absurd s

dispatched-arrivals :
    (tasks : List TaskMessage) (inputs : List Input)
    → dispatched (arrivals tasks ++ inputs)
      ≡ (tasks ++ (dispatched inputs).0, (dispatched inputs).1)
unfolding dispatched
dispatched-arrivals [] inputs = refl
dispatched-arrivals (t ∷ tasks) inputs = rw (dispatched-arrivals tasks inputs) refl

-- the tasks that came before the end are reported, each once and in their order, and no later one
run_worker-stop :
    (x : External) (output : Command → Output) (trim : String → String) (worker : Worker)
    (tasks : List TaskMessage) (stop : Input) (later : List Input)
    → Stops stop
    → run_worker x output trim worker (arrivals tasks ++ stop ∷ later)
      ≡ map (execute x output trim worker.registry) tasks
unfolding run_worker
run_worker-stop x output trim worker tasks stop later stops =
    rw (dispatched-arrivals tasks (stop ∷ later), dispatched-stop stop later stops)
      (ap (map (execute x output trim worker.registry)) (append-nil tasks))
