-- ===== src/Server/Start.antt =====
-- The start of the server: run_server of grpc.rs, `KhronosState::new` and `with_engine_tx`, `Engine::new` and
-- `sender`, `Scheduler::new` and the head of its `run`; and the tasks that run_server spawns, side by side. The
-- address, the compression of messages and the transport are left out.
pub mod Unheard
pub mod Sound
use khronos.Prelude.{ℕ, zero, suc, String, ◌≡◌, Bool, true, false, [], Option, none, some}
use khronos.Values.{DateTime}
use khronos.External.{External}
use khronos.Db.Schema.{Db, empty}
use khronos.Server.State.{Server}
use khronos.Server.Definitions.{Chars}
use khronos.Server.System.{Step}
use khronos.Server.Temporal.Schedules.{ScheduleRequest, update_schedule}
use khronos.Server.Temporal.Update.{Execute}
use khronos.Server.Scheduler.Start.{Firing}
use khronos.Server.Scheduler.Run.{Scheduler, reload_all_schedules, on_sleep, on_change}

-- `KhronosState::new`
abbrev pub new_state : Db → Server
new_state db = record { db = db; engine_tx = false; events = []; timers = [] }

abbrev pub with_engine_tx : Server → Server
with_engine_tx s = record s { engine_tx = true }

-- the scheduler over the shared database, and the messages on the channel of `Scheduler::new`
pub record Program : Type 0 where
  pub scheduler : Scheduler
  pub schedule_changes : ℕ

-- `Scheduler::new`, whose channel is empty, and the head of `run`, which reads the schedules into an empty heap
abbrev pub started_scheduler : External → DateTime → Server → Program
started_scheduler x now s = record {
  scheduler = record { server = s; heap = (reload_all_schedules x now s.db []).1 };
  schedule_changes = zero;
}

unfoldable pub run_server : External → DateTime → Db → Program
unfolding reload_all_schedules
run_server x now db = started_scheduler x now (with_engine_tx (new_state db))

-- `Database::new` of crates/db/src/lib.rs: the tables are created where the file is new, and kept otherwise
abbrev pub open_database : Option Db → Db
open_database none = empty
open_database (some db) = db

-- crates/server/src/main.rs; the port, the directory and the log are left out
unfoldable pub main : External → DateTime → Option Db → Program
unfolding run_server
main x now file = run_server x now (open_database file)

-- what the tasks do one after the other: a call, an event of the engine or a timer; the Temporal-compatible
-- update_schedule, whose statement `execute` answers; the end of the scheduler's sleep; a message on its channel, if
-- there is one. Nothing sends one: no code calls `schedule_change_sender`.
pub data Move (x : External) (execute : Execute) : Program → Program → Type 0 where
  served :
      (p : Program) (s : Server)
      → Step x p.scheduler.server s
      → Move x execute p (record p { scheduler = record p.scheduler { server = s } })
  updated :
      (p : Program) (digits : ℕ → String) (req : ScheduleRequest)
      → Move x execute p (record p {
        scheduler = record p.scheduler {
          server = (update_schedule execute digits req p.scheduler.server).1;
        };
      })
  slept :
      (p : Program) (chars : Chars) (firing : ℕ → Firing) (now later : DateTime)
      → Move x execute p (record p { scheduler = on_sleep x chars firing now later p.scheduler })
  heard :
      (p : Program) (now : DateTime) (n : ℕ)
      → p.schedule_changes ≡ suc n
      → Move x execute p (record { scheduler = on_change x now p.scheduler; schedule_changes = n })

pub data Runs (x : External) (execute : Execute) (p : Program) : Program → Type 0 where
  spawned : Runs x execute p p
  moved : (q r : Program) → Runs x execute p q → Move x execute q r → Runs x execute p r
