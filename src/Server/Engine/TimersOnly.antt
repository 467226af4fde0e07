-- ===== src/Server/Engine/TimersOnly.antt =====
-- Spawning a run's timers leaves the database and the channel alone.
use khronos.Prelude.{ℕ, String, Option, none, some, List, [], ◌∷◌, ◌≡◌, refl, ◌∙◌, ◌==◌}
use khronos.Prelude.Exec.{Exec, continue, ◌>>◌}
use khronos.Prelude.Result.{Result, ok, err}
use khronos.Db.Error.{DbError}
use khronos.External.{External, Now}
use khronos.Values.{DateTime}
use khronos.Table.{select}
use khronos.Db.Schema.{StepRow}
use khronos.Server.State.{Server}
use khronos.Server.Engine.Timers.{
  retry_text, reference_time, retry_timer, retry_timers, Watched, heartbeat_timer, heartbeat_timers,
  watched, is_retried, schedule_retry_timers_for_workflow, schedule_heartbeat_timers_for_workflow,
  schedule_timers_for_workflow,
}

module _ (x : External) (now : Now) where
  retry_timer-db :
      (r : StepRow) (at : Option DateTime) (s : Server) → (retry_timer x now r at s).1.db ≡ s.db
  retry_timer-db r none s = refl
  retry_timer-db r (some at) s = refl

  heartbeat_timer-db :
      (id : String) (timeout : Option ℕ) (at : Option DateTime) (s : Server)
      → (heartbeat_timer x now id timeout at s).1.db ≡ s.db
  heartbeat_timer-db id none at s = refl
  heartbeat_timer-db id (some timeout) none s = refl
  heartbeat_timer-db id (some timeout) (some at) s = refl

  -- what a handler that only spawns timers leaves of the server, after another one
  then_db :
      (m n : Exec Server DbError (Unit {0}))
      → ((s : Server) → (m s).1.db ≡ s.db)
      → ((s : Server) → (n s).1.db ≡ s.db)
      → (s : Server) → ((m >> n) s).1.db ≡ s.db
  then_db m n km kn s = continued (m s).0 (m s).1 (kn (m s).1) ∙ km s
    where
      continued :
          (r : Result (Unit {0}) DbError) (t : Server)
          → (n t).1.db ≡ t.db
          → (continue r (λ _. n) t).1.db ≡ t.db
      continued (ok u) t e = e
      continued (err d) t e = refl

  retry_timers-db : (rows : List StepRow) (s : Server) → (retry_timers x now rows s).1.db ≡ s.db
  unfolding retry_timers
  retry_timers-db [] s = refl
  retry_timers-db (r ∷ rows) s =
      then_db (retry_timer x now r (retry_text x now r.next_retry_at)) (retry_timers x now rows)
        (retry_timer-db r (retry_text x now r.next_retry_at)) (retry_timers-db rows) s

  heartbeat_timers-db :
      (rows : List Watched) (s : Server) → (heartbeat_timers x now rows s).1.db ≡ s.db
  unfolding heartbeat_timers
  heartbeat_timers-db [] s = refl
  heartbeat_timers-db (a ∷ rows) s =
      let at = reference_time x now a.last_hb a.started_at in
      then_db (heartbeat_timer x now a.id a.timeout_secs at) (heartbeat_timers x now rows)
        (heartbeat_timer-db a.id a.timeout_secs at) (heartbeat_timers-db rows) s

  pub schedule_timers_for_workflow-db :
      (run_id : String) (s : Server) → (schedule_timers_for_workflow x now run_id s).1.db ≡ s.db
  unfolding schedule_timers_for_workflow schedule_retry_timers_for_workflow
      schedule_heartbeat_timers_for_workflow
  schedule_timers_for_workflow-db run_id s =
      then_db (schedule_retry_timers_for_workflow x now run_id)
        (schedule_heartbeat_timers_for_workflow x now run_id)
        (λ t. retry_timers-db (select (is_retried run_id) t.db.workflow_steps) t)
        (λ t.
          heartbeat_timers-db
            (watched run_id t.db.workflow_steps
              (select (λ a. a.state == "running") t.db.activities))
            t)
        s
