-- ===== src/Server/System.antt =====
-- The server as a system of tasks: the clients' and workers' calls, the engine's loop, the schedules that fire and the timers, in any order. A
-- call or an event is handled to its end before the next one.
pub mod Pending
pub mod History
use khronos.Prelude.{Option, String, List, [], ◌∷◌, ◌++◌, ℕ, ◌≡◌, ◌≤◌}
use khronos.Values.{Uuid}
use khronos.External.{External, Now}
use khronos.Db.Integrity.{IsValid}
use khronos.Server.State.{Server, EngineEvent, Timer}
use khronos.Server.Log.{Log, untouched, Log-append}
use khronos.Server.Log.Integrity.{Log-IsValid}
use khronos.Server.Worker.Handlers.{
  PollActivityRequest, poll_activity, report_activity_result, report_activity_failure, heartbeat,
}
use khronos.Server.Worker.Log.{
  poll_activity-IsLogged, report_activity_result-IsLogged, report_activity_failure-IsLogged,
  heartbeat-IsLogged,
}
use khronos.Server.Definitions.{Chars}
use khronos.Server.Workflows.{StartWorkflowRequest, start_workflow, cancel_workflow_call}
use khronos.Server.Workflows.Log.{start_workflow-IsLogged, cancel_workflow_call-IsLogged}
use khronos.Server.Schedules.{
  CreateScheduleRequest, UpdateScheduleRequest, create_schedule_call, update_schedule_call,
  delete_schedule_call,
}
use khronos.Server.Schedules.Log.{
  create_schedule_call-IsLogged, update_schedule_call-IsLogged, delete_schedule_call-IsLogged,
}
use khronos.Server.Temporal.Runs.{StartWorkflowExecutionRequest, start_workflow_execution}
use khronos.Server.Temporal.Idle.{IdleCall, answer_idle}
use khronos.Server.Temporal.Tasks.{
  poll_activity_task_queue, respond_activity_task_completed, respond_activity_task_failed,
}
use khronos.Server.Temporal.Schedules.{ScheduleRequest, create_schedule, delete_schedule_request}
use khronos.Server.Temporal.Log.{
  start_workflow_execution-IsLogged, poll_activity_task_queue-IsLogged,
  respond_activity_task_completed-IsLogged, respond_activity_task_failed-IsLogged,
  create_schedule-IsLogged, delete_schedule_request-IsLogged,
}
use khronos.Server.Scheduler.Start.{Firing}
use khronos.Server.Scheduler.Process.{process_schedule}
use khronos.Server.Scheduler.Log.{process_schedule-IsLogged}
use khronos.Server.Engine.Handlers.{handle}
use khronos.Server.Engine.Log.{handle-IsLogged}

-- a timer whose deadline has passed sends its event on the engine's channel
abbrev pub fired : Server → List Timer → Timer → List Timer → Server
fired s before t after = record s { events = s.events ++ t.event ∷ []; timers = before ++ after }

pub data Step (x : External) : Server → Server → Type 0 where
  polled :
      (s : Server) (now : Now) (id : Uuid) (req : PollActivityRequest)
      → Step x s (poll_activity x now id req s).1
  succeeded :
      (s : Server) (now : Now) (id result : String)
      → Step x s (report_activity_result x now id result s).1
  failed :
      (s : Server) (now : Now) (id error_message : String)
      → Step x s (report_activity_failure x now id error_message s).1
  beaten : (s : Server) (now : Now) (id : String) → Step x s (heartbeat now id s).1
  received :
      (s : Server) (now : Now) (event : EngineEvent) (rest : List EngineEvent)
      → s.events ≡ event ∷ rest
      → Step x s (handle x now event (record s { events = rest })).1
  started :
      (s : Server) (chars : Chars) (now : Now) (run_id : Uuid) (ids : ℕ → Uuid)
      (req : StartWorkflowRequest)
      → Step x s (start_workflow x chars now run_id ids req s).1
  cancelled :
      (s : Server) (now : Now) (run_id : String) → Step x s (cancel_workflow_call now run_id s).1
  schedule_created :
      (s : Server) (now : Now) (req : CreateScheduleRequest)
      → Step x s (create_schedule_call x now req s).1
  schedule_updated :
      (s : Server) (now : Now) (req : UpdateScheduleRequest)
      → Step x s (update_schedule_call x now req s).1
  schedule_deleted :
      (s : Server) (id namespace : String) → Step x s (delete_schedule_call id namespace s).1
  execution_started :
      (s : Server) (chars : Chars) (now : Now) (run_id : Uuid) (ids : ℕ → Uuid)
      (req : StartWorkflowExecutionRequest)
      → Step x s (start_workflow_execution x chars now run_id ids req s).1
  queue_polled :
      (s : Server) (now : Now) (id : Uuid) (queue : Option String)
      → Step x s (poll_activity_task_queue x now id queue s).1
  responded_completed :
      (s : Server) (now : Now) (id : String) (result : Option (List String))
      → Step x s (respond_activity_task_completed x now id result s).1
  responded_failed :
      (s : Server) (now : Now) (id : String) (failure : Option String)
      → Step x s (respond_activity_task_failed x now id failure s).1
  schedule_requested :
      (s : Server) (now : Now) (req : ScheduleRequest) → Step x s (create_schedule now req s).1
  schedule_dropped :
      (s : Server) (id namespace : String) → Step x s (delete_schedule_request id namespace s).1
  idled : (s : Server) (call : IdleCall) → Step x s (answer_idle call s).1
  schedule_fired :
      (s : Server) (chars : Chars) (f : Firing) (id : String)
      → Step x s (process_schedule x chars f id s).1
  timed :
      (s : Server) (now : Now) (before after : List Timer) (t : Timer)
      → s.timers ≡ before ++ t ∷ after
      → t.deadline ≤ now.utc
      → Step x s (fired s before t after)

pub data Reachable (x : External) (s : Server) : Server → Type 0 where
  start : Reachable x s s
  next : (t u : Server) → Reachable x s t → Step x t u → Reachable x s u

module _ (x : External) where
  pub Step-Log : (s t : Server) → Step x s t → Log x s.db t.db
  unfolding answer_idle
  Step-Log _ _ (polled s now id req) = (poll_activity-IsLogged x now id req).at s
  Step-Log _ _ (succeeded s now id result) = (report_activity_result-IsLogged x now id result).at s
  Step-Log _ _ (failed s now id error_message) =
      (report_activity_failure-IsLogged x now id error_message).at s
  Step-Log _ _ (beaten s now id) = (heartbeat-IsLogged x now id).at s
  Step-Log _ _ (received s now event rest e) =
      (handle-IsLogged x now event).at (record s { events = rest })
  Step-Log _ _ (started s chars now run_id ids req) =
      (start_workflow-IsLogged x chars now run_id ids req).at s
  Step-Log _ _ (cancelled s now run_id) = (cancel_workflow_call-IsLogged x now run_id).at s
  Step-Log _ _ (schedule_created s now req) = (create_schedule_call-IsLogged x now req).at s
  Step-Log _ _ (schedule_updated s now req) = (update_schedule_call-IsLogged x now req).at s
  Step-Log _ _ (schedule_deleted s id namespace) =
      (delete_schedule_call-IsLogged x id namespace).at s
  Step-Log _ _ (execution_started s chars now run_id ids req) =
      (start_workflow_execution-IsLogged x chars now run_id ids req).at s
  Step-Log _ _ (queue_polled s now id queue) =
      (poll_activity_task_queue-IsLogged x now id queue).at s
  Step-Log _ _ (responded_completed s now id result) =
      (respond_activity_task_completed-IsLogged x now id result).at s
  Step-Log _ _ (responded_failed s now id failure) =
      (respond_activity_task_failed-IsLogged x now id failure).at s
  Step-Log _ _ (schedule_requested s now req) = (create_schedule-IsLogged x now req).at s
  Step-Log _ _ (schedule_dropped s id namespace) =
      (delete_schedule_request-IsLogged x id namespace).at s
  Step-Log _ _ (idled s call) = untouched
  Step-Log _ _ (schedule_fired s chars f id) = (process_schedule-IsLogged x chars f id).at s
  Step-Log _ _ (timed s now before after timer e past) = untouched

  -- every state that is reached is reached by statements
  pub Reachable-Log : (s t : Server) → Reachable x s t → Log x s.db t.db
  Reachable-Log s _ start = untouched
  Reachable-Log s _ (next u t path step) = Log-append (Reachable-Log s u path) (Step-Log u t step)

  -- From a server whose database is sound, every sequence of the calls that write for runs, schedules and
  -- workers (but the Temporal-compatible update_schedule), of engine events, of schedules that fire and of timers
  -- leaves it sound: keys are unique, every state is one that its table allows, every step's run and every
  -- activity's step is there.
  pub Reachable-IsValid : (s t : Server) → IsValid s.db → Reachable x s t → IsValid t.db
  Reachable-IsValid s t v path = Log-IsValid x s.db (Reachable-Log s t path) v
