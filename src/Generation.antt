-- ===== src/Generation.antt =====
-- backend/app/workers/generate_instances.py: the nightly job that makes task instances for the days
-- ahead and moves late ones on.
pub mod Sweep
pub mod Upsert
pub mod Presence
pub mod Coverage
pub mod Horizon
pub mod Failure
use kids_chores_api.Grace.{grace_remaining}
use kids_chores_api.Session.{
  Db, Action, value_error, pure, query, or_raise, uuid, modify, ◌>>=◌, ◌>>◌,
}
use kids_chores_api.Session.Request.{get_db}
use kids_chores_api.Models.{
  RowId, Time, Household, TaskDefinition, TaskInstance, TaskStatus, is_status, ScheduleType,
}
use kids_chores_api.Prelude.{
  not, ℕ, zero, suc, ◌+◌, ◌/◌, ◌%◌, ◌^◌, Bool, true, false, ◌&&◌, Option, none, some, List, [], ◌∷◌,
  map, any, filter, ltb, leb, ◌==◌, Text, is_missing, is_none, if◌then◌else◌,
}
use kids_chores_api.Prelude.Int.{ℤ, pos, negsuc, leb_ℤ}

-- A date is its `toordinal()`.
abbrev pub Date : Type 0
Date = ℕ

-- `weekday()`, where Monday is 0.
abbrev pub weekday : Date → ℕ
weekday d = (d + 6) % 7

-- `mask & (1 << bit)`; in two's complement the bits of -(n + 1) are those that n has not.
abbrev pub has_bit : ℤ → ℕ → Bool
has_bit (pos n) bit = (n / 2 ^ bit) % 2 == 1
has_bit (negsuc n) bit = not ((n / 2 ^ bit) % 2 == 1)

-- `GENERATION_HORIZON_DAYS`
abbrev pub generation_horizon_days : ℕ
generation_horizon_days = 14

scheduled : ScheduleType → Option ℤ → Date → Date → Bool
scheduled ScheduleType.one_time mask start target_date = target_date == start
scheduled ScheduleType.daily mask start target_date = true
scheduled ScheduleType.weekdays none start target_date = false
scheduled ScheduleType.weekdays (some mask) start target_date = has_bit mask (weekday target_date)
scheduled ScheduleType.weekly mask start target_date = weekday target_date == weekday start

-- `uq_instance_def_due`, where an insertion that conflicts does nothing.
unfoldable pub taken : RowId → Time → List TaskInstance → Bool
taken definition_id due_at rows =
    any (λ (i : TaskInstance). i.definition_id == definition_id && i.due_at == due_at) rows

abbrev pub new_instance : TaskDefinition → Time → Time → RowId → TaskInstance
new_instance defn due_utc now id = record {
  id = id;
  definition_id = defn.id;
  assignee_id = defn.assignee_id;
  due_at = due_utc;
  point_value = defn.point_value;
  status = if leb due_utc now then TaskStatus.overdue else TaskStatus.pending;
  completed_at = none;
  completion_note = none;
  excuse_text = none;
  excuse_submitted_at = none;
  grace_paused_at = none;
  grace_elapsed_seconds = 0;
  reviewed_by = none;
  reviewed_at = none;
  review_comment = none;
  series_instance_id = none;
  reminder_sent_at = none;
}

unfoldable pub insert_new : TaskInstance → Action Unit
unfolding taken
insert_new i = modify λ db.
    if taken i.definition_id i.due_at db.task_instances
    then db
    else record db { task_instances = i ∷ db.task_instances }

-- `definition_id IN (...)`
abbrev pub is_of : List TaskDefinition → TaskInstance → Bool
is_of definitions i = any (λ (d : TaskDefinition). i.definition_id == d.id) definitions

unfoldable pub to_overdue : List TaskDefinition → Time → TaskInstance → TaskInstance
to_overdue definitions now i =
    if is_status i.status TaskStatus.pending && leb i.due_at now && is_of definitions i
    then record i { status = TaskStatus.overdue }
    else i

unfoldable pub to_missed : List TaskDefinition → ℕ → Time → TaskInstance → TaskInstance
to_missed definitions grace_period_hours now i =
    if is_status i.status TaskStatus.overdue
      && is_of definitions i
      && leb_ℤ (grace_remaining i grace_period_hours now) (pos 0)
    then record i { status = TaskStatus.missed }
    else i

-- The two passes over the table.
unfoldable pub sweep : List TaskDefinition → ℕ → Time → Db → Db
unfolding to_overdue to_missed
sweep definitions grace_period_hours now db = record db {
  task_instances =
      map (to_missed definitions grace_period_hours now)
        (map (to_overdue definitions now) db.task_instances);
}

abbrev pub live_definitions : RowId → Db → List TaskDefinition
live_definitions household_id db =
    filter (λ (d : TaskDefinition). d.household_id == household_id && is_none d.archived_at)
      db.task_definitions

-- What `strptime`, `int` and `pytz` make of texts and zones: a date, the moment at which a day's due
-- time is reached, and the local date of a moment.
pub record Calendar : Type 0 where
  pub parse_date : Text → Option Date
  pub due_at : Text → Date → Text → Option Time
  pub local_date : Text → Time → Date

module _ (calendar : Calendar) where
  -- `if defn.end_date: ... if target_date > end: return False`
  within_end : Option Text → Date → Action Bool
  within_end none target_date = pure true
  within_end (some end_date) target_date =
      if is_missing (some end_date)
      then pure true
      else do end ← or_raise (calendar.parse_date end_date) value_error; pure (leb target_date end)

  -- From a start date that could be read.
  from_start : TaskDefinition → Date → Date → Action Bool
  unfolding within_end scheduled
  from_start defn target_date start = if ltb target_date start then pure false else do
    open_yet ← within_end defn.end_date target_date
    pure (open_yet && scheduled defn.schedule_type defn.weekday_mask start target_date)

  unfoldable pub should_generate_for_date : TaskDefinition → Date → Action Bool
  unfolding from_start
  should_generate_for_date defn target_date =
      or_raise (calendar.parse_date defn.start_date) value_error >>= from_start defn target_date

  unfoldable pub upsert_due : TaskDefinition → Date → Text → Time → Action Unit
  unfolding insert_new
  upsert_due defn target_date timezone now = do
    due_utc ← or_raise (calendar.due_at timezone target_date defn.due_time) value_error
    id ← uuid
    insert_new (new_instance defn due_utc now id)

  unfoldable pub upsert_instance_for_date : TaskDefinition → Date → Text → Time → Action Unit
  unfolding upsert_due
  upsert_instance_for_date defn target_date timezone now = do
    due ← should_generate_for_date defn target_date
    if due then upsert_due defn target_date timezone now else pure tt

  -- `for day_offset in range(...)`: the days `today + (days - left)` and on.
  unfoldable pub generate_days : TaskDefinition → ℕ → Date → Text → Time → Action Unit
  generate_days defn zero day timezone now = pure tt
  generate_days defn (suc left) day timezone now = do
    upsert_instance_for_date defn day timezone now
    generate_days defn left (suc day) timezone now

  unfoldable pub generate_definitions : List TaskDefinition → Date → Text → Time → Action Unit
  generate_definitions [] today timezone now = pure tt
  generate_definitions (defn ∷ defns) today timezone now = do
    generate_days defn generation_horizon_days today timezone now
    generate_definitions defns today timezone now

  unfoldable pub generate_household_body : Household → Time → Action Unit
  generate_household_body household now = do
    definitions ← query (live_definitions household.id)
    let today = calendar.local_date household.timezone now
    generate_definitions definitions today household.timezone now
    modify (sweep definitions household.grace_period_hours now)

  -- The session commits at the end; when something raises it is closed, which rolls it back.
  unfoldable pub generate_for_household : Household → Time → Action Unit
  unfolding generate_household_body
  generate_for_household household now = get_db (generate_household_body household now)

  -- `for household in households`: an exception ends the job.
  unfoldable pub generate_all_households : List Household → Time → Action Unit
  generate_all_households [] now = pure tt
  generate_all_households (h ∷ hs) now = do
    generate_for_household h now
    generate_all_households hs now
