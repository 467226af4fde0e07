-- ===== src/Server/State.antt =====
-- The state that the handlers share: `KhronosState` of grpc.rs and `Engine` of engine.rs over one
-- database file, what was sent on the engine's broadcast channel, and the timers that were spawned.
use khronos.Prelude.{String, Bool, List, [], ◌∷◌, ◌++◌, ◌+◌, leb, if◌then◌else◌}
use khronos.Prelude.Result.{Result, ok, err, ok_or}
use khronos.Prelude.Exec.{Exec}
use khronos.Values.{DateTime}
use khronos.Table.{find}
use khronos.Db.Error.{DbError, no_rows}
use khronos.Db.Schema.{StepRow, ActivityRow, Db, has_step, has_activity}

pub data EngineEvent : Type 0 where
  workflow_created : String → EngineEvent
  step_completed : String → EngineEvent
  schedule_change : EngineEvent
  retry_due : String → EngineEvent
  heartbeat_timeout : String → EngineEvent

-- a task that sleeps until the deadline and sends the event
pub record Timer : Type 0 where
  pub deadline : DateTime
  pub event : EngineEvent

pub record Server : Type 0 where
  pub db : Db
  pub engine_tx : Bool  -- whether `engine_tx` is `Some`
  pub events : List EngineEvent  -- sent on the channel, the oldest first
  pub timers : List Timer

-- tonic::Status; `internal` has the fixed part of its message and the error that follows it
pub data Status : Type 0 where
  invalid_argument : String → Status
  not_found : String → Status
  internal : String → DbError → Status

abbrev pub stored :
    {E : Type 0} → (DbError → E) → Server → Result Db DbError → Result (Unit {0}) E × Server
stored f s (ok db) = (ok tt, record s { db = db })
stored f s (err e) = (err (f e), s)

abbrev pub loaded : {A E : Type 0} → (DbError → E) → Server → Result A DbError → Result A E × Server
loaded f s (ok a) = (ok a, s)
loaded f s (err e) = (err (f e), s)

-- a statement that writes, and one that reads, with what `map_err` makes of its error
abbrev pub db_write :
    {E : Type 0} → (DbError → E) → (Db → Result Db DbError) → Exec Server E (Unit {0})
db_write f run s = stored f s (run s.db)

abbrev pub db_read : {A E : Type 0} → (DbError → E) → (Db → Result A DbError) → Exec Server E A
db_read f run s = loaded f s (run s.db)

abbrev pub kept : Server → Result Db DbError → Server
kept s (ok db) = record s { db = db }
kept s (err e) = s

-- a write whose error is dropped by `.ok()`
abbrev pub db_try : {E : Type 0} → (Db → Result Db DbError) → Exec Server E (Unit {0})
db_try run s = (ok tt, kept s (run s.db))

-- `if let Some(tx) = &self.engine_tx { let _ = tx.send(event); }`
abbrev pub notify : {E : Type 0} → EngineEvent → Exec Server E (Unit {0})
notify event s = (ok tt, if s.engine_tx then record s { events = s.events ++ event ∷ [] } else s)

-- a deadline that is past makes `to_std` fail, and the timer waits a millisecond
abbrev pub deadline_from : DateTime → DateTime → DateTime
deadline_from now at = if leb now at then at else now + 1_000_000

abbrev pub spawn_timer : {E : Type 0} → DateTime → DateTime → EngineEvent → Exec Server E (Unit {0})
spawn_timer now at event s = (
  ok tt,
  record s { timers = s.timers ++ record { deadline = deadline_from now at; event = event } ∷ [] },
)

-- `SELECT ... WHERE id = ?1` by query_row, which fails where there is no row
unfoldable pub find_activity : String → Db → Result ActivityRow DbError
find_activity id db = ok_or (find (has_activity id) db.activities) no_rows

unfoldable pub find_step : String → Db → Result StepRow DbError
find_step id db = ok_or (find (has_step id) db.workflow_steps) no_rows
