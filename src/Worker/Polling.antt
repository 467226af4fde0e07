-- ===== src/Worker/Polling.antt =====
-- poll_once of poller.rs and poll_activity of client.rs, against the server.
use khronos.Prelude.{ℕ, List, String, Option, none, [], ◌≡◌, refl}
use khronos.Prelude.Result.{Result, ok, err, map_ok, map_err}
use khronos.Prelude.Exec.{Exec, pure, continue, ◌>>=◌}
use khronos.Values.{Uuid}
use khronos.External.{External, Now}
use khronos.Db.Activities.{get_pending_steps}
use khronos.Server.State.{Server, Status, internal}
use khronos.Server.Worker.Handlers.{PollActivityRequest, TaskMessage, poll_activity, no_task}
use khronos.Core.Workflow.{WorkflowStepInstance}
use khronos.Db.Error.{DbError}
use khronos.Server.Worker.Attempts.{poll_activity-no_types}

-- the defaults of worker.rs
pub record WorkerConfig : Type 0 where
  pub server_url : String
  pub task_queue : String
  pub max_concurrent : ℕ

abbrev pub default_worker : WorkerConfig
default_worker = record {
  server_url = "127.0.0.1:50053";
  task_queue = "default";
  max_concurrent = 4;
}

module _ (x : External) where
  -- poll_activity of client.rs
  abbrev pub poll_for_task :
      Now → Uuid → PollActivityRequest → Exec Server Status (Option TaskMessage)
  poll_for_task now id request = do response ← poll_activity x now id request; pure response.task

  -- the request has no activity types
  unfoldable pub poll_once : Now → Uuid → String → Exec Server Status (Option TaskMessage)
  poll_once now id task_queue =
      poll_for_task now id (record { task_queue = task_queue; activity_types = [] })

  -- A poll of the worker never gets a task and changes nothing on the server, whatever is due: it is
  -- idle if the server's query succeeds, else an error.
  pub poll_once-idle :
      (now : Now) (id : Uuid) (task_queue : String) (s : Server)
      → poll_once now id task_queue s ≡ (
        map_err
            (internal "Failed to get pending steps")
            (map_ok (λ _. none) (get_pending_steps x now.sql s.db)),
        s,
      )
  unfolding poll_once
  poll_once-idle now id task_queue s =
      rw (poll_activity-no_types x now id task_queue s)
        (answered (get_pending_steps x now.sql s.db))
    where
      answered :
          (r : Result (List WorkflowStepInstance) DbError)
          → continue
              (map_err (internal "Failed to get pending steps") (map_ok (λ _. no_task) r))
              (λ response. pure {S = Server} {E = Status} response.task)
              s
            ≡ (map_err (internal "Failed to get pending steps") (map_ok (λ _. none) r), s)
      answered (ok steps) = refl
      answered (err d) = refl
