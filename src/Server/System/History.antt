-- ===== src/Server/System/History.antt =====
-- What stays of a run and of a step, whatever the server does.
use khronos.Prelude.{String}
use khronos.External.{External}
use khronos.Server.State.{Server}
use khronos.Server.Log.History.{StepsFound, RunsFound, Log-StepsFound, Log-RunsFound}
use khronos.Server.System.{Reachable, Reachable-Log}

-- Whatever the calls, the engine, the schedules and the timers do, a step or a run that an id finds is found by
-- it in every later state, with the columns that say what it is: for a step its run, index, activity, arguments,
-- retry policy, timeouts and time of creation, for a run its workflow, name, queue, arguments, timeouts and
-- namespace. None is deleted, or taken by another with the same id.
pub Reachable-found :
    (x : External) (s t : Server) (id : String)
    → Reachable x s t
    → StepsFound id s.db t.db × RunsFound id s.db t.db
Reachable-found x s t id path =
    let log = Reachable-Log x s t path in
    (Log-StepsFound x id s.db {db' = t.db} log, Log-RunsFound x id s.db {db' = t.db} log)
