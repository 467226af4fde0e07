-- ===== src/Server/Definitions.antt =====
-- The built-in workflow definitions of grpc.rs. `chars` stands for the Unicode tables of
-- `char::is_uppercase` and `char::to_lowercase().next()`.
use Prim.Native.Char.{Char}
use khronos.Prelude.{
  ℕ, String, Bool, true, false, Option, none, some, List, [], ◌∷◌, ◌==◌, ◌&&◌, not, if◌then◌else◌,
}
use khronos.Values.{f64_one, f64_two}
use khronos.Core.Workflow.{ActivityStep}

pub record Chars : Type 0 where
  pub is_uppercase : Char → Bool
  pub to_lowercase : Char → Char

abbrev underscore : Char
underscore = "_"

module _ (chars : Chars) where
  -- the loop over `name.chars().enumerate()`; `first` is `i == 0`
  pub normalize : Bool → String → String
  normalize first String.[] = String.[]
  normalize first (String.◌∷◌ c name) =
      let rest = String.◌∷◌ (chars.to_lowercase c) (normalize false name) in
      if chars.is_uppercase c && not first then String.◌∷◌ underscore rest else rest

abbrev pub step_def : String → ℕ → ℕ → ℕ → Option ℕ → ActivityStep
step_def name attempts interval timeout heartbeat = record {
  activity_name = name;
  args_template = [];
  retry_policy = record { maximum_attempts = attempts; initial_interval_secs = interval };
  timeout_secs = timeout;
  heartbeat_timeout_secs = heartbeat;
}

abbrev pub cron_job_steps : List ActivityStep
cron_job_steps =
    step_def "execute_cron_job" 3 f64_two 300 (some 60)
    ∷ step_def "save_cron_output" 2 f64_one 60 none
    ∷ step_def "deliver_cron_result" 3 f64_two 120 (some 30)
    ∷ step_def "mark_job_run_activity" 1 f64_one 30 none
    ∷ step_def "trigger_on_success_jobs" 2 f64_one 60 none
    ∷ []

module _ (chars : Chars) where
  unfoldable pub get_workflow_definition : String → List ActivityStep
  unfolding normalize
  get_workflow_definition name =
      if normalize chars true name == "cron_job_workflow"
      then cron_job_steps
      else step_def name 3 f64_two 300 (some 60) ∷ []
