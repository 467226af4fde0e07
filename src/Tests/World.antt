-- ===== src/Tests/World.antt =====
-- A small server: one run of two steps, and one running activity.
use khronos.Prelude.{ℕ, String, true, none, some, [], ◌∷◌, ◌≡◌, refl}
use khronos.Values.{object, end}
use khronos.Core.Schedule.{Schedule, cron, buffer, default_timeouts}
use khronos.Core.Workflow.{WorkflowInstance, WorkflowState, WorkflowStepInstance}
use khronos.External.{Now}
use khronos.Prelude.Result.{ok}
use khronos.Db.Workflows.{cancel_workflow, cancel_row}
use khronos.Table.{exists, count, update}
use khronos.Table.Keys.{HasKey}
use khronos.Prelude.{arith, false}
use khronos.Db.Workflows.RoundTrip.{RunSurvives}
use khronos.Server.Definitions.{Chars}
use khronos.Db.Schema.{ScheduleRow, WorkflowRow, StepRow, ActivityRow, Db}
use khronos.Db.Dates.{parse_datetime}
use khronos.Db.Integrity.{IsValid}
use khronos.Server.State.{Server}
use khronos.Tests.Libraries.{policy, hourly, noon, libraries}

abbrev pub now : Now
now = record { utc = 12; sql = noon }

abbrev pub run_row : WorkflowRow
run_row = record {
  run_id = "1";
  workflow_id = "order";
  name = "order";
  task_queue = "default";
  state = "running";
  args_json = "{}";
  result_json = none;
  execution_timeout_secs = none;
  run_timeout_secs = none;
  task_timeout_secs = none;
  started_at = some noon;
  completed_at = none;
  namespace = "default";
}

abbrev pub step_row : String → ℕ → String → ℕ → StepRow
step_row id index state attempt = record {
  id = id;
  workflow_run_id = "1";
  step_index = index;
  activity_name = "charge";
  args_json = "{}";
  retry_policy_json = "3";
  timeout_secs = 60;
  heartbeat_timeout_secs = some 30;
  state = state;
  attempt = attempt;
  result_json = none;
  next_retry_at = none;
  created_at = noon;
}

abbrev pub activity_row : ActivityRow
activity_row = record {
  id = "a";
  step_id = "2";
  attempt = 1;
  state = "running";
  started_at = some noon;
  completed_at = none;
  last_heartbeat_at = none;
  result_json = none;
  error_message = none;
}

-- the first step is completed, the second is in the hands of a worker
abbrev pub working : Server
working = record {
  db = record {
    namespaces = [];
    schedules = [];
    workflows = run_row ∷ [];
    workflow_steps = step_row "1" 0 "completed" 1 ∷ step_row "2" 1 "running" 1 ∷ [];
    activities = activity_row ∷ [];
  };
  engine_tx = true;
  events = [];
  timers = [];
}

-- the second step waits for a worker
abbrev pub waiting : Server
waiting = record working {
  db = record {
    namespaces = [];
    schedules = [];
    workflows = run_row ∷ [];
    workflow_steps = step_row "1" 0 "completed" 1 ∷ step_row "2" 1 "pending" 0 ∷ [];
    activities = [];
  };
}

abbrev pub second_step : WorkflowStepInstance
second_step = record {
  id = 2;
  workflow_run_id = 1;
  step_index = 1;
  activity_name = "charge";
  args_json = object end;
  retry_policy = policy;
  timeout_secs = 60;
  heartbeat_timeout_secs = some 30;
  state = WorkflowState.pending;
  attempt = 0;
  result_json = none;
  next_retry_at = none;
}

pub working-IsValid : IsValid working.db
unfolding exists
working-IsValid = record {
  runs_keyed = (refl, tt);
  steps_keyed = (refl, (refl, tt));
  activities_keyed = (refl, tt);
  schedules_keyed = tt;
  run_states = (refl, tt);
  step_states = (refl, (refl, tt));
  activity_states = (refl, tt);
  step_runs = (refl, (refl, tt));
  activity_steps = (refl, tt);
}

-- the database after the run is cancelled
abbrev pub cancelled_db : Db
cancelled_db = record working.db { workflows = cancel_row noon run_row ∷ [] }

pub cancelled : cancel_workflow noon "1" working.db ≡ ok cancelled_db
unfolding cancel_workflow count update
cancelled = refl

abbrev pub chars : Chars
chars = record { is_uppercase = λ c. false; to_lowercase = λ c. c }

abbrev pub new_run : WorkflowInstance
new_run = record {
  run_id = 2;
  workflow_id = "order";
  name = "order";
  task_queue = "default";
  state = WorkflowState.pending;
  args_json = object end;
  result_json = none;
  timeouts = record {
    execution_timeout_secs = some 60;
    run_timeout_secs = none;
    task_timeout_secs = none;
  };
  started_at = none;
  completed_at = some 12;
  namespace = "default";
}

abbrev pub schedule : Schedule
schedule = record {
  schedule_id = "hourly";
  namespace = "default";
  spec = cron hourly;
  action = record {
    workflow_name = "order";
    args = [];
    task_queue = "default";
    id = "";
    timeouts = default_timeouts;
  };
  policy = buffer 3;
  created_at = 0;
  updated_at = 0;
}

abbrev pub schedule_row : ScheduleRow
schedule_row = record {
  schedule_id = "hourly";
  namespace = "default";
  spec_type = "cron";
  cron_expressions = some "[]";
  interval_seconds = none;
  overlap_policy = "buffer";
  action_workflow_name = "order";
  action_task_queue = "default";
  action_args_json = "{}";
  action_id = some "";
  timeouts_json = "{}";
  created_at = noon;
  updated_at = noon;
}

abbrev pub scheduled_db : Db
scheduled_db = record working.db { schedules = schedule_row ∷ [] }

pub scheduled_db-HasKey : HasKey (λ (r : ScheduleRow). r.schedule_id) scheduled_db.schedules
unfolding exists
scheduled_db-HasKey = (refl, tt)

pub new_run-RunSurvives : RunSurvives libraries new_run
unfolding parse_datetime
new_run-RunSurvives = record {
  run_id = refl;
  args = record { text = "{}"; written = refl; read_back = refl };
  result = tt;
  started = tt;
  completed = refl;
  execution = omega arith;
  run = tt;
  task = tt;
}
