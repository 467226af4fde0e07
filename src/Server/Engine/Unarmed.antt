-- ===== src/Server/Engine/Unarmed.antt =====
-- The timers against chrono's rule that a time parsed by DateTime::parse_from_str needs an offset.
use khronos.Prelude.{ℕ, ◌==◌, String, Option, none, some, List, [], ◌∷◌, ◌≡◌, refl}
use khronos.Prelude.Result.{ok}
use khronos.External.{External, Now, NeedsOffset}
use khronos.Table.{select}
use khronos.Db.Schema.{StepRow}
use khronos.Server.State.{Server}
use khronos.Server.Engine.Timers.{
  timer_format, retry_text, reference_time, retry_timers, Watched, heartbeat_timer,
  heartbeat_timers, watched, is_retried, schedule_retry_timers_for_workflow,
  schedule_heartbeat_timers_for_workflow, schedule_timers_for_workflow,
}

module _ (x : External) (needs : NeedsOffset x timer_format) (now : Now) where
  no_retry_time : (s : Option String) → retry_text x now s ≡ none
  no_retry_time none = refl
  no_retry_time (some s) = needs.fails s

  no_reference_time : (hb started : Option String) → reference_time x now hb started ≡ none
  no_reference_time (some hb) started = needs.fails hb
  no_reference_time none (some started) = needs.fails started
  no_reference_time none none = refl

  no_retry_timers : (rows : List StepRow) (s : Server) → retry_timers x now rows s ≡ (ok tt, s)
  unfolding retry_timers
  no_retry_timers [] s = refl
  no_retry_timers (r ∷ rows) s = rw (no_retry_time r.next_retry_at, no_retry_timers rows s)

  no_heartbeat_timers :
      (rows : List Watched) (s : Server) → heartbeat_timers x now rows s ≡ (ok tt, s)
  unfolding heartbeat_timers
  no_heartbeat_timers [] s = refl
  no_heartbeat_timers (a ∷ rows) s =
      rw (
        no_reference_time a.last_hb a.started_at,
        unarmed a.timeout_secs,
        no_heartbeat_timers rows s,
      )
    where
      unarmed : (timeout : Option ℕ) → heartbeat_timer x now a.id timeout none s ≡ (ok tt, s)
      unarmed none = refl
      unarmed (some timeout) = refl

  -- Where a time without an offset does not parse, the engine spawns no timer for a run, whatever steps of it
  -- are to be retried and whatever activities are running, and says nothing of it.
  pub schedule_timers_for_workflow-unarmed :
      (run_id : String) (s : Server) → schedule_timers_for_workflow x now run_id s ≡ (ok tt, s)
  unfolding schedule_timers_for_workflow schedule_retry_timers_for_workflow
      schedule_heartbeat_timers_for_workflow
  schedule_timers_for_workflow-unarmed run_id s = rw (
    no_retry_timers (select (is_retried run_id) s.db.workflow_steps) s,
    no_heartbeat_timers
        (watched run_id s.db.workflow_steps (select (λ a. a.state == "running") s.db.activities)) s,
  )
