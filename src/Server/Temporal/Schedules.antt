-- ===== src/Server/Temporal/Schedules.antt =====
-- create_schedule, update_schedule, describe_schedule and delete_schedule
use khronos.Prelude.{
  ℕ, String, Bool, true, false, Option, none, some, List, [], ◌∷◌, ◌==◌, ◌||◌, eqb, not, unwrap_or,
  if◌then◌else◌,
}
use mathlib.Core.Option
use Prim.Native.String.{◌++◌}
use khronos.Prelude.Result.{Result, ok, err, ok_or}
use khronos.Prelude.Exec.{Exec, pure, lift, fail, ◌>>=◌, ◌>>◌}
use khronos.Values.{i64_ltb}
use khronos.External.{External, Now}
use khronos.Table.{find, count, exists}
use khronos.Db.Error.{DbError, no_rows}
use khronos.Db.Schema.{ScheduleRow, Db, insert_schedule_row}
use khronos.Db.Schedules.{of_namespace, delete_schedule}
use khronos.Server.State.{Server, Status, internal, invalid_argument, not_found, db_write, db_read}
use khronos.Server.Workflows.{or_default}

-- the message ScheduleSpec: the intervals as the seconds of their durations
pub record SpecRequest : Type 0 where
  pub cron_string : List String
  pub interval : List (Option ℕ)

-- the message NewWorkflowExecutionInfo
pub record StartAction : Type 0 where
  pub workflow_type : Option String
  pub task_queue : Option String
  pub workflow_id : String
  pub input : Option (List String)

-- the message Schedule: its action holds a start_workflow or nothing
pub record ScheduleMessage : Type 0 where
  pub spec : Option SpecRequest
  pub action : Option (Option StartAction)
  pub overlap_policy : Option ℕ

pub record ScheduleRequest : Type 0 where
  pub schedule_id : String
  pub namespace : String
  pub schedule : Option ScheduleMessage

-- `Vec<String>::join`
abbrev pub join : String → List String → String
join sep [] = ""
join sep (s ∷ []) = s
join sep (s ∷ t ∷ rest) = s ++ sep ++ join sep (t ∷ rest)

-- `str::strip_prefix`
abbrev pub strip_prefix : String → String → Option String
strip_prefix String.[] s = some s
strip_prefix (String.◌∷◌ c prefix) String.[] = none
strip_prefix (String.◌∷◌ c prefix) (String.◌∷◌ d s) =
    let rest = strip_prefix prefix s in
    if String.◌∷◌ c String.[] == String.◌∷◌ d String.[] then rest else none

-- the spec's type, its cron text and its interval
abbrev pub first_interval : List (Option ℕ) → ℕ
first_interval [] = 0
first_interval (interval ∷ intervals) = unwrap_or interval 0

abbrev pub parse_spec : SpecRequest → Result (String × String × ℕ) Status
parse_spec spec = elim spec.cron_string [
  | expr ∷ exprs ↦ ok ("cron", join "," (expr ∷ exprs), 0)
  | [] ↦ elim spec.interval [
    | interval ∷ intervals ↦ ok ("interval", "", first_interval (interval ∷ intervals))
    | [] ↦ err (invalid_argument "schedule spec must have cron_string or interval")
  ]
]

abbrev first_payload : List String → String
first_payload [] = ""
first_payload (payload ∷ payloads) = payload

abbrev pub job_of : String → Option (List String) → String
job_of schedule_id none = unwrap_or (strip_prefix "lycus-cron-" schedule_id) ""
job_of schedule_id (some payloads) = first_payload payloads

abbrev pub overlap_text : ℕ → String
overlap_text n =
    if eqb n 2 || eqb n 3 then "buffer" else if eqb n 4 || eqb n 5 then "terminate" else "skip"

-- `now` is the text of `datetime('now')`
abbrev pub schedule_row_of :
    String → ScheduleRequest → Option ℕ → String × String × ℕ → StartAction → ScheduleRow
schedule_row_of now req policy spec action = record {
  schedule_id = req.schedule_id;
  namespace = or_default req.namespace;
  spec_type = spec.0;
  cron_expressions = some spec.1;
  interval_seconds = some spec.2;
  overlap_policy = unwrap_or (Option.map overlap_text policy) "skip";
  action_workflow_name = unwrap_or action.workflow_type "";
  action_task_queue = unwrap_or action.task_queue "";
  action_args_json = job_of req.schedule_id action.input;
  action_id = some action.workflow_id;
  timeouts_json = "{}";
  created_at = now;
  updated_at = now;
}

-- no event is sent
unfoldable pub create_schedule : Now → ScheduleRequest → Exec Server Status (Unit {0})
create_schedule now req = do
  schedule ← lift (ok_or req.schedule (invalid_argument "schedule is required"))
  spec ← lift (ok_or schedule.spec (invalid_argument "schedule spec is required"))
  action ← lift (ok_or schedule.action (invalid_argument "schedule action is required"))
  parsed ← lift (parse_spec spec)
  start ← lift (ok_or action (invalid_argument "schedule action start_workflow is required"))
  db_write (internal "Failed to create schedule")
      (insert_schedule_row (schedule_row_of now.sql req schedule.overlap_policy parsed start))

abbrev pub require : Bool → Exec Server Status (Unit {0})
require true = pure tt
require false = fail (not_found "Schedule not found")

-- the assignments of update_schedule, with the values spliced into their texts
abbrev pub spec_sets : (ℕ → String) → Option SpecRequest → List String
spec_sets digits none = []
spec_sets digits (some spec) = elim spec.cron_string [
  | expr ∷ exprs ↦
      ("spec_type = 'cron', cron_expressions = '" ++ join "," (expr ∷ exprs) ++ "'") ∷ []
  | [] ↦ elim spec.interval [
    | interval ∷ intervals ↦
        ("spec_type = 'interval', interval_seconds = "
          ++ digits (first_interval (interval ∷ intervals)))
        ∷ []
    | [] ↦ []
  ]
]

abbrev pub set_text : String → Option String → List String → List String
set_text column none sets = sets
set_text column (some value) sets = (column ++ " = '" ++ value ++ "'") ∷ sets

abbrev nonempty : String → Option String
nonempty s = if s == "" then none else some s

abbrev pub action_sets : Option (Option StartAction) → List String → List String
action_sets (some (some action)) sets = set_text "action_workflow_name" action.workflow_type (
    set_text "action_task_queue" action.task_queue
      (set_text "action_id" (nonempty action.workflow_id) sets))
action_sets (some none) sets = sets
action_sets none sets = sets

abbrev append : List String → List String → List String
append [] sets = sets
append (s ∷ rest) sets = s ∷ append rest sets

-- `digits` is the `Display` of i64
abbrev pub update_sql : (ℕ → String) → ScheduleMessage → String
update_sql digits schedule =
    "UPDATE schedules SET "
    ++ join ", " (
        "updated_at = datetime('now')"
        ∷ append (spec_sets digits schedule.spec) (
            action_sets schedule.action
              (set_text "overlap_policy" (Option.map overlap_text schedule.overlap_policy) [])))
    ++ " WHERE schedule_id = ?1 AND namespace = ?2"

-- `execute` is what SQLite does for a statement with its two parameters
unfoldable pub update_schedule :
    (String → String → String → Db → Result Db DbError)
    → (ℕ → String)
    → ScheduleRequest
    → Exec Server Status (Unit {0})
update_schedule execute digits req = do
  found ←
      db_read (internal "Failed to check schedule")
        (λ db. ok (exists (of_namespace req.schedule_id (or_default req.namespace)) db.schedules))
  require found
  schedule ← lift (ok_or req.schedule (invalid_argument "schedule is required"))
  db_write (internal "Failed to update schedule")
      (execute (update_sql digits schedule) req.schedule_id (or_default req.namespace))

module _ (x : External) where
  abbrev pub described_spec : ScheduleRow → SpecRequest
  described_spec r =
      if r.spec_type == "cron"
      then record {
        cron_string =
            unwrap_or
              (elim r.cron_expressions [ none ↦ none | some text ↦ x.strings_from_str text ]) [];
        interval = [];
      }
      else if r.spec_type == "interval"
      then record {
        cron_string = [];
        interval =
            if i64_ltb 0 (unwrap_or r.interval_seconds 0)
            then some (unwrap_or r.interval_seconds 0) ∷ []
            else [];
      }
      else record { cron_string = []; interval = [] }

  abbrev pub overlap_number : String → ℕ
  overlap_number policy = if policy == "buffer" then 2 else if policy == "terminate" then 4 else 1

  abbrev pub described : ScheduleRow → ScheduleMessage
  described r = record {
    spec = some (described_spec r);
    action = some (
        some (record {
          workflow_type = some r.action_workflow_name;
          task_queue = some r.action_task_queue;
          workflow_id = unwrap_or r.action_id "";
          input = none;
        }));
    overlap_policy = some (overlap_number r.overlap_policy);
  }

  unfoldable pub describe_schedule : String → String → Exec Server Status ScheduleMessage
  describe_schedule schedule_id namespace = do
    let test = of_namespace schedule_id (or_default namespace)
    n ← db_read (internal "Failed to describe schedule") (λ db. ok (count test db.schedules))
    require (not (eqb n 0))
    row ←
        db_read (internal "Failed to describe schedule")
          (λ db. ok_or (find test db.schedules) no_rows)
    pure (described row)

unfoldable pub delete_schedule_request : String → String → Exec Server Status (Unit {0})
delete_schedule_request schedule_id namespace =
    db_write (internal "Failed to delete schedule")
      (λ db. ok (delete_schedule schedule_id (or_default namespace) db).1)
