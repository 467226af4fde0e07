-- ===== src/Server/Temporal/Splicing.antt =====
-- The values of a request in the statement of update_schedule.
use khronos.Prelude.{ℕ, String, Option, none, some, ◌≡◌, ap, ◌∙◌, Bool-cases, inl, inr}
use Prim.Native.String.{◌++◌}
use text.Mathlib.TextLemmas.{append_assoc}
use khronos.Prelude.Result.{Result}
use khronos.Db.Error.{DbError}
use khronos.Table.{exists}
use khronos.Db.Schema.{Db}
use khronos.Db.Schedules.{of_namespace}
use khronos.Server.Workflows.{or_default}
use khronos.Server.State.{Server}
use khronos.Server.Temporal.Schedules.{ScheduleMessage, update_sql, update_schedule}

-- the text between the two values, as update_schedule puts it together
between :
    (t : String)
    → "', action_task_queue = '" ++ t ≡ "'" ++ ", " ++ "action_task_queue" ++ " = '" ++ t
between t =
    append_assoc "'" ", action_task_queue = '" t
    ∙ ap (λ u. "'" ++ u)
        (append_assoc ", " "action_task_queue = '" t
          ∙ ap (λ u. ", " ++ u) (append_assoc "action_task_queue" " = '" t))

-- a request that names a workflow type, and a task queue if it is given one
abbrev pub naming : String → Option String → ScheduleMessage
naming name task_queue = record {
  spec = none;
  action = some (
      some (record {
        workflow_type = some name;
        task_queue = task_queue;
        workflow_id = "";
        input = none;
      }));
  overlap_policy = none;
}

spliced :
    (digits : ℕ → String) (name queue : String)
    → update_sql digits (naming (name ++ "', action_task_queue = '" ++ queue) none)
      ≡ update_sql digits (naming name (some queue))
spliced digits name queue = simp (append_assoc, between)

-- Updating a schedule's workflow name alone, to a name that holds a quote and an assignment of the task queue,
-- does what updating the name and the task queue does: the values are spliced into the statement as they are.
pub update_schedule-spliced :
    (execute : String → String → String → Db → Result Db DbError) (digits : ℕ → String)
    (id namespace name queue : String) (s : Server)
    → update_schedule execute digits
        (record {
          schedule_id = id;
          namespace = namespace;
          schedule = some (naming (name ++ "', action_task_queue = '" ++ queue) none);
        })
        s
      ≡ update_schedule execute digits
          (record {
            schedule_id = id;
            namespace = namespace;
            schedule = some (naming name (some queue));
          })
          s
unfolding update_schedule
update_schedule-spliced execute digits id namespace name queue s =
    elim (Bool-cases (exists (of_namespace id (or_default namespace)) s.db.schedules)) [
      | inl e ↦ rw (e, spliced digits name queue)
      | inr e ↦ rw e
    ]
