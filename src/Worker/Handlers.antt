-- ===== src/Worker/Handlers.antt =====
-- handler.rs and registry.rs, and register_default_handlers of worker.rs.
use khronos.Prelude.{
  ℕ, String, Bool, Option, none, some, List, [], ◌∷◌, ◌==◌, is_some, length, if◌then◌else◌,
}
use Prim.Native.String.{◌++◌}
use khronos.Prelude.Result.{Result, ok, err}

-- a handler, with its script and its working directory
pub data Handler : Type 0 where
  script : String → String → Handler
  python : String → String → Handler
  dummy : Handler

-- how a process ended: not at all, or with its output, and the `Debug` text of its exit code where it failed
pub data Output : Type 0 where
  not_spawned : String → Output
  succeeded : String → String → Output
  failed : String → String → String → Output

-- a process: the program, its arguments and its working directory
pub record Command : Type 0 where
  pub program : String
  pub args : List String
  pub current_dir : String

abbrev pub output_text : Output → Result String String
output_text (not_spawned e) = err ("Failed to spawn: " ++ e)
output_text (succeeded stdout stderr) = ok (if stdout == "" then stderr else stdout)
output_text (failed code stdout stderr) = err ("Exit code " ++ code ++ ": " ++ stderr)

-- `execute` of the three handlers; `output` is what the operating system makes of a command
unfoldable pub run_handler : (Command → Output) → Handler → String → Result String String
run_handler output (script script_path workdir) name =
    output_text
      (output (record { program = "bash"; args = "-c" ∷ script_path ∷ []; current_dir = workdir }))
run_handler output (python script_path workdir) name =
    output_text
      (output (record { program = "python3"; args = script_path ∷ []; current_dir = workdir }))
run_handler output dummy name = ok ("Dummy result for activity " ++ name)

-- the message for a task without a handler
abbrev pub unregistered : String → String
unregistered name = "No handler registered for activity: " ++ name

-- the map from names to handlers
abbrev pub ActivityRegistry : Type 0
ActivityRegistry = List (String × Handler)

-- `HashMap::insert`: a name that is there gets the new handler
abbrev pub register : String → Handler → ActivityRegistry → ActivityRegistry
register name handler [] = (name, handler) ∷ []
register name handler ((key, old) ∷ handlers) =
    let rest = register name handler handlers in
    if key == name then (name, handler) ∷ handlers else (key, old) ∷ rest

abbrev pub get : String → ActivityRegistry → Option Handler
get name [] = none
get name ((key, handler) ∷ handlers) =
    let rest = get name handlers in if key == name then some handler else rest

abbrev pub has : String → ActivityRegistry → Bool
has name registry = is_some (get name registry)

abbrev pub len : ActivityRegistry → ℕ
len registry = length registry

-- `home` is the variable HOME, or its default
unfoldable pub register_default_handlers : String → ActivityRegistry → ActivityRegistry
register_default_handlers home registry = register "dummy-activity" dummy (
    register "lycus-mathlab-agent"
      (python (home ++ "/Documents/AI_researched_math/mathLaboratory/laboratory_agent.py") home)
      (register "lycus-mathnexus-extract"
        (python (home ++ "/Documents/AI_researched_math/mathNEXUS/extract_mindmap.py") home)
        (register "lycus-arxiv-factory" (script (home ++ "/scripts/arxiv_factory.sh") home) (
          register "lycus-searxng-error-reactive"
            (script (home ++ "/scripts/searxng_error_check.sh") home)
            (register "lycus-searxng-healthcheck"
              (script (home ++ "/scripts/searxng_health_check.sh") home)
              (register "lycus-cron-notifier" (script (home ++ "/scripts/cron_notifier.sh") home) (
                register "lycus-memory-condenser"
                  (python (home ++ "/scripts/memory_condenser.py") home) registry)))))))
