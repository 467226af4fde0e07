-- ===== src/Tests/Systems.antt =====
-- The theorems on the whole server at concrete inputs.
use khronos.Prelude.{
  none, ◌+◌, true, ◌==◌, ℕ, zero, suc, String, some, [], ◌∷◌, ◌≡◌, refl, ap, length, List,
}
use khronos.Prelude.Result.{ok}
use khronos.Values.{string}
use khronos.Core.Workflow.{WorkflowStepInstance, WorkflowState}
use khronos.External.{External}
use khronos.Table.{count, exists, append_row}
use khronos.Db.States.{str_to_workflow_state}
use khronos.Db.Activities.{get_pending_steps, is_due}
use khronos.Server.State.{Server}
use khronos.Server.Worker.Handlers.{poll_activity, report_activity_failure}
use khronos.Server.Log.History.{StepsFound, RunsFound}
use khronos.Server.Log.Reading.{ReadsBack}
use khronos.Server.System.{Reachable, start, next, polled, failed}
use khronos.Server.System.Pending.{Reachable-get_pending_steps}
use khronos.Server.System.History.{Reachable-found}
use khronos.Server.System.{schedule_created}
use khronos.Server.Schedules.{CreateScheduleRequest, create_schedule_call}
use khronos.Db.Schema.{has_schedule, insert_schedule_row}
use khronos.Db.Schedules.{insert_schedule}
use khronos.Server.Definitions.{Chars}
use khronos.Server.Scheduler.Start.{Firing}
use khronos.Server.Scheduler.Run.{fire_due}
use khronos.Server.Scheduler.Due.{of_schedule}
use khronos.Server.System.{started}
use khronos.Server.Workflows.{StartWorkflowRequest, start_workflow}
use khronos.Db.Integrity.{IsValid}
use khronos.Server.Start.Sound.{main-IsValid}
use khronos.Server.Start.{Program, main, run_server, served, updated, spawned, moved}
use khronos.Server.Start.Unheard.{run_server-unheard}
use khronos.Tests.Libraries.{libraries, policy, noon, touching, touching-UpdatesSchedules}
use khronos.Server.Temporal.Schedules.{ScheduleRequest, update_schedule}
use khronos.Server.Temporal.Splicing.{naming}
use khronos.Tests.World.{chars, now, waiting, step_row, scheduled_db}

-- the number of a UUID as so many characters
unary : ℕ → String
unary zero = String.[]
unary (suc n) = String.◌∷◌ "1" (unary n)

length_of : String → ℕ
length_of String.[] = zero
length_of (String.◌∷◌ c s) = suc (length_of s)

length_of-unary : (n : ℕ) → length_of (unary n) ≡ n
unfolding unary length_of
length_of-unary zero = refl
length_of-unary (suc n) = ap suc (length_of-unary n)

-- libraries that read every text
abbrev readers : External
readers = record libraries {
  value_from_str = λ s. some (string s);
  retry_from_str = λ s. some policy;
  uuid_to_string = unary;
  uuid_parse_str = λ s. some (length_of s);
  naive_parse = λ fmt s. some 12;
}

readers-ReadsBack : ReadsBack readers
readers-ReadsBack = record {
  uuids = λ u. ap some (length_of-unary u);
  policies = λ p t built e. (policy, refl);
  args = λ v t from e. (string t, refl);
  results = λ v t stored e. (string t, refl);
  times = λ d. (12, refl);
}

-- a run with one step, whose id is 2
abbrev queued : Server
queued = record waiting {
  db = record waiting.db { workflow_steps = step_row "11" 0 "pending" 0 ∷ [] };
}

-- a poll that hands the step out, and a report of its failure
abbrev after_failure : Server
after_failure =
    (report_activity_failure readers now (unary 1) "card declined"
      (poll_activity readers now 1
        (record { task_queue = "default"; activity_types = "charge" ∷ [] }) queued).1).1

failing : Reachable readers queued after_failure
failing = next _ _ (next _ _ start (polled queued now 1 _)) (failed _ now (unary 1) "card declined")

Reachable-get_pending_steps_example :
    (steps : List WorkflowStepInstance) × (get_pending_steps readers noon after_failure.db
      ≡ ok steps)
    × (length steps ≡ count (is_due noon) after_failure.db.workflow_steps)
unfolding str_to_workflow_state
Reachable-get_pending_steps_example =
    Reachable-get_pending_steps readers queued after_failure noon readers-ReadsBack
      (
        record {
          id_read = (length_of "11", refl);
          run_read = (length_of "1", refl);
          state_read = (WorkflowState.pending, refl);
          args_read = (string "{}", refl);
          policy_read = (policy, refl);
          result_read = tt;
          retry_read = tt;
        },
        tt,
      )
      failing

Reachable-found_example :
    StepsFound "11" queued.db after_failure.db × RunsFound "11" queued.db after_failure.db
Reachable-found_example = Reachable-found readers queued after_failure "11" failing

-- a schedule "nightly", created while the server runs over a database with "hourly"
abbrev nightly : CreateScheduleRequest
nightly = record {
  schedule_id = "nightly";
  namespace = "default";
  spec = some (record { spec_type = "interval"; cron_expressions = []; interval_spec = some 3600 });
  action = some (record {
    workflow_name = "order";
    args = [];
    task_queue = "default";
    id = "";
    timeouts = none;
  });
  policy = none;
}

abbrev begun : Program
begun = run_server libraries 13 scheduled_db

abbrev extended : Server
extended = (create_schedule_call libraries now nightly begun.scheduler.server).1

nightly_test : exists (has_schedule "nightly") extended.db.schedules ≡ true
unfolding run_server exists create_schedule_call insert_schedule insert_schedule_row append_row
nightly_test = refl

abbrev running : Program
running = record begun { scheduler = record begun.scheduler { server = extended } }

run_server-unheard_example :
    (count (of_schedule "nightly") running.scheduler.heap ≡ 0)
    × ((chars : Chars) (firing : ℕ → Firing) (now : ℕ)
        → count
            (λ i. i == "nightly")
            (fire_due libraries
              (length running.scheduler.heap)
              chars
              firing
              now
              running.scheduler.heap
              running.scheduler.server).0
          ≡ 0)
unfolding exists
run_server-unheard_example =
    run_server-unheard libraries touching 13 scheduled_db "nightly" running refl
      (moved begun running spawned (served begun extended (schedule_created _ now nightly)))

-- a run that is started on a new file
abbrev created : Program
created = main readers 13 none

abbrev order : StartWorkflowRequest
order = record {
  workflow_name = "order";
  args = [];
  workflow_id = "";
  task_queue = "";
  timeouts = none;
  namespace = "";
}

abbrev after : Server → Program
after s = record created { scheduler = record created.scheduler { server = s } }

abbrev scheduled : Server
scheduled = (create_schedule_call readers now nightly created.scheduler.server).1

abbrev ordered : Server
ordered = (start_workflow readers chars now 1 (λ i. i + 2) order scheduled).1

abbrev renaming : ScheduleRequest
renaming = record {
  schedule_id = "nightly";
  namespace = "default";
  schedule = some (naming "report" none);
}

abbrev renamed : Server
renamed = (update_schedule touching unary renaming ordered).1

main-IsValid_example :
    IsValid renamed.db
    × ((now : String)
        → (steps : List WorkflowStepInstance) × (get_pending_steps readers now renamed.db
            ≡ ok steps)
          × (length steps ≡ count (is_due now) renamed.db.workflow_steps))
main-IsValid_example =
    main-IsValid readers touching 13 (after renamed) readers-ReadsBack touching-UpdatesSchedules (
      moved (after ordered) (after renamed)
        (moved (after scheduled) (after ordered)
          (moved created (after scheduled) spawned
            (served created scheduled (schedule_created _ now nightly)))
          (served (after scheduled) ordered (started _ chars now 1 (λ i. i + 2) order)))
        (updated (after ordered) unary renaming))
