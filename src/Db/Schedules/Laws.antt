-- ===== src/Db/Schedules/Laws.antt =====
-- A schedule that is stored and read again, and one that is deleted.
use khronos.Prelude.{
  String, ◌≡◌, refl, true, false, Option, none, some, arith, ◌==◌, ◌<◌, ◌^◌, ◌%◌, eq_refl,
  if◌then◌else◌,
}
use khronos.Prelude.Result.{ok}
use khronos.Values.{DateTime}
use khronos.Core.Schedule.{
  ScheduleSpec, cron, interval, OverlapPolicy, skip, buffer, terminate_existing, Schedule,
}
use khronos.External.{External, Survives}
use khronos.Table.{find, exists, append_row, find-append_row}
use khronos.Table.Keys.{find-delete-keyed, HasKey, count-keyed, count-keyed-none}
use khronos.Db.Schema.{
  ScheduleRow, Db, has_schedule, insert_schedule_row, spec_type_check, overlap_policy_check,
}
use khronos.Db.Dates.{parse_datetime}
use khronos.Db.Schedules.{
  insert_schedule, get_schedule, row_to_schedule, delete_schedule, cron_column, spec_type,
  interval_column, overlap_policy, read_spec, str_to_overlap_policy,
}

-- the number of buffered runs is not stored
abbrev pub stored_policy : OverlapPolicy → OverlapPolicy
stored_policy (buffer n) = buffer 1
stored_policy policy = policy

-- what is read back of a schedule that is inserted at the time given
abbrev pub stored_schedule : DateTime → Schedule → Schedule
stored_schedule at schedule = record schedule {
  policy = stored_policy schedule.policy;
  created_at = at;
  updated_at = at;
}

str_to_overlap_policy-overlap_policy :
    (policy : OverlapPolicy)
    → str_to_overlap_policy (overlap_policy policy) ≡ ok (stored_policy policy)
str_to_overlap_policy-overlap_policy skip = refl
str_to_overlap_policy-overlap_policy (buffer n) = refl
str_to_overlap_policy-overlap_policy terminate_existing = refl

spec_type_check-spec_type : (spec : ScheduleSpec) → spec_type_check (spec_type spec) ≡ true
spec_type_check-spec_type (cron exprs) = refl
spec_type_check-spec_type (interval secs) = refl

overlap_policy_check-overlap_policy :
    (policy : OverlapPolicy) → overlap_policy_check (overlap_policy policy) ≡ true
overlap_policy_check-overlap_policy skip = refl
overlap_policy_check-overlap_policy (buffer n) = refl
overlap_policy_check-overlap_policy terminate_existing = refl

-- the row of a new schedule, by the texts of its JSON columns
abbrev schedule_row : String → Schedule → Option String → String → String → ScheduleRow
schedule_row now schedule cron_expressions args_text timeouts_text = record {
  schedule_id = schedule.schedule_id;
  namespace = schedule.namespace;
  spec_type = spec_type schedule.spec;
  cron_expressions = cron_expressions;
  interval_seconds = interval_column schedule.spec;
  overlap_policy = overlap_policy schedule.policy;
  action_workflow_name = schedule.action.workflow_name;
  action_task_queue = schedule.action.task_queue;
  action_args_json = args_text;
  action_id = some schedule.action.id;
  timeouts_json = timeouts_text;
  created_at = now;
  updated_at = now;
}

module _ (x : External) where
  -- expressions that survive as text, or seconds that fit in the column
  abbrev pub SpecSurvives : ScheduleSpec → Type 0
  SpecSurvives (cron exprs) = Survives x.strings_to_string x.strings_from_str exprs
  SpecSurvives (interval secs) = secs < 2 ^ 64

  read_spec-spec_type :
      (spec : ScheduleSpec)
      → SpecSurvives spec
      → (c : Option String) × (cron_column x spec ≡ ok c)
        × ((r : ScheduleRow)
            → r.spec_type ≡ spec_type spec
            → r.cron_expressions ≡ c
            → r.interval_seconds ≡ interval_column spec
            → read_spec x r ≡ ok spec)
  read_spec-spec_type (cron exprs) h =
      (some h.text, rw h.written refl, λ r e f g. rw (e, f, h.read_back) refl)
  read_spec-spec_type (interval secs) h =
      let fits : secs % 2 ^ 64 % 2 ^ 64 ≡ secs = omega arith in
      (none, refl, λ r e f g. rw (e, g, fits) refl)

  -- An inserted schedule is read back as it was, but that `Buffer(n)` becomes `Buffer(1)` and the two times are
  -- the time of the insert, where its id is new and its JSON columns and the time survive as text.
  pub insert_schedule-get_schedule :
      (now : String) (at : DateTime) (schedule : Schedule) (db : Db)
      → exists (has_schedule schedule.schedule_id) db.schedules ≡ false
      → SpecSurvives schedule.spec
      → Survives x.args_to_string x.args_from_str schedule.action.args
      → Survives x.timeouts_to_string x.timeouts_from_str schedule.action.timeouts
      → parse_datetime x now ≡ ok at
      → (db' : Db) × (insert_schedule x now schedule db ≡ ok db')
        × (get_schedule x schedule.schedule_id db' ≡ ok (some (stored_schedule at schedule)))
  unfolding insert_schedule insert_schedule_row get_schedule row_to_schedule
  insert_schedule-get_schedule now at schedule db fresh spec args timeouts clock =
      let (c, written, read) = read_spec-spec_type schedule.spec spec in
      let row = schedule_row now schedule c args.text timeouts.text in
      (
        record db { schedules = append_row row db.schedules },
        rw (
          written,
          args.written,
          timeouts.written,
          fresh,
          spec_type_check-spec_type schedule.spec,
          overlap_policy_check-overlap_policy schedule.policy,
        ),
        rw (
          find-append_row (has_schedule schedule.schedule_id) row db.schedules,
          fresh,
          eq_refl schedule.schedule_id,
          read row refl refl refl,
          str_to_overlap_policy-overlap_policy schedule.policy,
          args.read_back,
          timeouts.read_back,
          clock,
        ),
      )

-- what a deletion does to the schedule of the id, by its row
abbrev pub DeleteOutcome : String → String → Db → Option ScheduleRow → Type 0
DeleteOutcome schedule_id namespace db none = (delete_schedule schedule_id namespace db).0 ≡ 0
DeleteOutcome schedule_id namespace db (some r) =
    ((delete_schedule schedule_id namespace db).0 ≡ (if r.namespace == namespace then 1 else 0))
    × (find (has_schedule schedule_id) (delete_schedule schedule_id namespace db).1.schedules
        ≡ (if r.namespace == namespace then none else some r))

delete_outcome :
    (schedule_id namespace : String) (db : Db)
    → HasKey (λ (r : ScheduleRow). r.schedule_id) db.schedules
    → (found : Option ScheduleRow) → find (has_schedule schedule_id) db.schedules ≡ found
    → DeleteOutcome schedule_id namespace db found
unfolding delete_schedule
delete_outcome schedule_id namespace db keys none e =
    count-keyed-none {Row = ScheduleRow} (λ r. r.schedule_id) schedule_id
      (λ r. r.namespace == namespace) db.schedules e
delete_outcome schedule_id namespace db keys (some r) e = (
  count-keyed {Row = ScheduleRow} (λ r. r.schedule_id) schedule_id (λ r. r.namespace == namespace)
      db.schedules {r = r} keys e,
  find-delete-keyed {Row = ScheduleRow} (λ r. r.schedule_id) schedule_id
      (λ r. r.namespace == namespace) db.schedules {r = r} keys e,
)

-- Where schedule ids are unique, deleting a schedule by its id and namespace deletes one row and leaves no
-- schedule of the id if its namespace is the one given, and else deletes none and leaves it as it was.
delete_schedule_lem :
    (schedule_id namespace : String) (db : Db)
    → HasKey (λ (r : ScheduleRow). r.schedule_id) db.schedules
    → DeleteOutcome schedule_id namespace db (find (has_schedule schedule_id) db.schedules)
delete_schedule_lem schedule_id namespace db keys =
    delete_outcome schedule_id namespace db keys _ refl
