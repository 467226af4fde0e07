-- ===== src/Server/Engine/Timers.antt =====
-- The timers that a handler spawns for the retried steps and the running activities of a workflow.
use khronos.Prelude.{
  ℕ, String, Bool, Option, none, some, List, [], ◌∷◌, ◌==◌, ◌&&◌, is_some, if◌then◌else◌,
}
use khronos.Prelude.Result.{ok}
use khronos.Prelude.Exec.{Exec, pure, ◌>>=◌, ◌>>◌}
use khronos.Values.{DateTime}
use khronos.External.{External, Now}
use khronos.Table.{select, find}
use khronos.Db.Error.{DbError}
use khronos.Db.Schema.{StepRow, ActivityRow, has_step}
use khronos.Server.State.{Server, retry_due, heartbeat_timeout, db_read, spawn_timer}
use khronos.Server.Engine.Process.{of_run_in}

abbrev pub timer_format : String
timer_format = "%Y-%m-%d %H:%M:%S"

abbrev pub is_retried : String → StepRow → Bool
is_retried run_id r = of_run_in run_id "retried" r && is_some r.next_retry_at

-- an activity's columns of the query: id, started_at, last_heartbeat_at, heartbeat_timeout_secs
pub record Watched : Type 0 where
  pub id : String
  pub started_at : Option String
  pub last_hb : Option String
  pub timeout_secs : Option ℕ

abbrev watched_row : ActivityRow → StepRow → Watched
watched_row a ws = record {
  id = a.id;
  started_at = a.started_at;
  last_hb = a.last_heartbeat_at;
  timeout_secs = ws.heartbeat_timeout_secs;
}

-- the join with `workflow_steps` over the running activities
abbrev pub watched : String → List StepRow → List ActivityRow → List Watched
watched run_id steps [] = []
watched run_id steps (a ∷ rows) =
    let rest = watched run_id steps rows in
    elim (find (has_step a.step_id) steps) [
      | none ↦ rest
      | some ws ↦ if ws.workflow_run_id == run_id then watched_row a ws ∷ rest else rest
    ]

module _ (x : External) (now : Now) where
  abbrev pub retry_timer : StepRow → Option DateTime → Exec Server DbError (Unit {0})
  retry_timer r none = pure tt
  retry_timer r (some at) = spawn_timer now.utc at (retry_due r.id)

  abbrev pub retry_text : Option String → Option DateTime
  retry_text none = none
  retry_text (some s) = x.zoned_parse timer_format s

  -- the loop over the retried steps: a time that does not parse is passed over
  unfoldable pub retry_timers : List StepRow → Exec Server DbError (Unit {0})
  retry_timers [] = pure tt
  retry_timers (r ∷ rows) = do retry_timer r (retry_text r.next_retry_at); retry_timers rows

  -- the time that the timeout counts from
  abbrev pub reference_time : Option String → Option String → Option DateTime
  reference_time (some hb) started = x.zoned_parse timer_format hb
  reference_time none (some started) = x.zoned_parse timer_format started
  reference_time none none = none

  abbrev pub heartbeat_timer : String → Option ℕ → Option DateTime → Exec Server DbError (Unit {0})
  heartbeat_timer id none at = pure tt
  heartbeat_timer id (some timeout) none = pure tt
  heartbeat_timer id (some timeout) (some at) =
      spawn_timer now.utc (x.seconds_later at timeout) (heartbeat_timeout id)

  unfoldable pub heartbeat_timers : List Watched → Exec Server DbError (Unit {0})
  heartbeat_timers [] = pure tt
  heartbeat_timers (a ∷ rows) = do
    heartbeat_timer a.id a.timeout_secs (reference_time a.last_hb a.started_at)
    heartbeat_timers rows

  unfoldable pub schedule_retry_timers_for_workflow : String → Exec Server DbError (Unit {0})
  unfolding retry_timers
  schedule_retry_timers_for_workflow run_id = do
    steps ← db_read (λ e. e) (λ db. ok (select (is_retried run_id) db.workflow_steps))
    retry_timers steps

  unfoldable pub schedule_heartbeat_timers_for_workflow : String → Exec Server DbError (Unit {0})
  unfolding heartbeat_timers
  schedule_heartbeat_timers_for_workflow run_id = do
    activities ←
        db_read (λ e. e)
          (λ db.
            ok
              (watched run_id db.workflow_steps (select (λ a. a.state == "running") db.activities)))
    heartbeat_timers activities

  unfoldable pub schedule_timers_for_workflow : String → Exec Server DbError (Unit {0})
  unfolding schedule_retry_timers_for_workflow schedule_heartbeat_timers_for_workflow
  schedule_timers_for_workflow run_id = do
    schedule_retry_timers_for_workflow run_id
    schedule_heartbeat_timers_for_workflow run_id
