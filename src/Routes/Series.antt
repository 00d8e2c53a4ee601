-- ===== src/Routes/Series.antt =====
-- backend/app/routers/series.py: series and their windows. The caller of a route that writes is a
-- parent.
pub mod Windows
use kids_chores_api.Generation.{weekday, Date}
use kids_chores_api.Schemas.{SeriesInstanceResponse, SeriesUpdate, SeriesCreate}
use kids_chores_api.Session.{
  insert_series_instance, member_in, insert_series, http, or_raise, raise_if, db_now, pure,
  series_in, query, ◌>>◌, modify, uuid, ◌>>=◌, Action, update_row, Db,
}
use kids_chores_api.Models.{
  SeriesStatus, TaskStatus, is_status, TaskInstance, Household, Time, SeriesInstance,
  TaskDefinition, RowId, Series, SeriesWindowType,
}
use kids_chores_api.Prelude.{
  is_none, not, suc, ◌||◌, none, ◌&&◌, ◌+◌, ltb, map, is_id, length, filter, ◌==◌, some, ℕ, Option,
  ◌-◌, if◌then◌else◌, leb, any, List, Bool, Text,
}
use kids_chores_api.Routes.Household.{or_keep}
use kids_chores_api.Prelude.Order.{order_by}

-- What `datetime` and `pytz` know: the local date of a moment, the year and the month of a date, the
-- date of a year, a month and a day, and the moment at which a local day begins.
pub record Months : Type 0 where
  pub local_date : Text → Time → Date
  pub civil : Date → ℕ × ℕ
  pub date_of : ℕ → ℕ → ℕ → Date
  pub midnight : Text → Date → Time

abbrev put_series : Series → Db → Db
put_series r db = record db { series = update_row (λ (x : Series). x.id) r db.series }

unfoldable pub list_series : Bool → Household → Db → List Series
list_series include_archived household db =
    order_by (λ (r : Series) (q : Series). leb q.created_at r.created_at)
      (filter
        (λ (r : Series).
          r.household_id == household.id && (include_archived || is_none r.archived_at))
        db.series)

unfoldable pub get_series_or_404 : RowId → RowId → Action Series
get_series_or_404 series_id household_id = do
  found ← query (series_in series_id household_id)
  or_raise found (http 404)

unfoldable pub changed_series : SeriesUpdate → Series → Series
changed_series body series = record series {
  name = or_keep body.name series.name;
  bonus_points = or_keep body.bonus_points series.bonus_points;
  payout_mode = or_keep body.payout_mode series.payout_mode;
  window_type = or_keep body.window_type series.window_type;
}

unfoldable pub update_series : RowId → SeriesUpdate → Household → Action Series
unfolding get_series_or_404
update_series series_id body household = do
  series ← get_series_or_404 series_id household.id
  modify (put_series (changed_series body series))
  pure (changed_series body series)

unfoldable pub archive_series : RowId → Household → Time → Action Unit
unfolding get_series_or_404
archive_series series_id household now = do
  series ← get_series_or_404 series_id household.id
  modify (put_series (record series { archived_at = some now }))

-- "n of m complete", if there is a task.
abbrev progress_of : List TaskInstance → Option (ℕ × ℕ)
progress_of tasks =
    let total = length tasks in
    if ltb 0 total
    then some (
      length (filter (λ (i : TaskInstance). is_status i.status TaskStatus.complete) tasks),
      total,
    )
    else none

instance_response : Db → SeriesInstance → SeriesInstanceResponse
instance_response db r = record {
  id = r.id;
  series_id = r.series_id;
  window_start = r.window_start;
  window_end = r.window_end;
  status = r.status;
  completed_at = r.completed_at;
  progress =
      progress_of
        (filter (λ (i : TaskInstance). is_id i.series_instance_id r.id) db.task_instances);
}

unfoldable pub list_series_instances : RowId → Household → Action (List SeriesInstanceResponse)
unfolding get_series_or_404 instance_response
list_series_instances series_id household = do
  get_series_or_404 series_id household.id
  query λ db. map (instance_response db) (
      order_by (λ (r : SeriesInstance) (q : SeriesInstance). leb q.window_start r.window_start)
        (filter (λ (r : SeriesInstance). r.series_id == series_id) db.series_instances))

-- The ids that a request names are those of these rows; `id IN (...)` finds each row once.
abbrev pub named : List RowId → RowId → TaskDefinition → Bool
named ids household_id d = any (λ (id : RowId). d.id == id) ids && d.household_id == household_id

-- `for defn in definitions: defn.series_id = series.id`
abbrev pub link_named : List RowId → RowId → RowId → TaskDefinition → TaskDefinition
link_named ids household_id series_id d =
    if named ids household_id d then record d { series_id = some series_id } else d

module _ (months : Months) where
  -- The first day of the window, and the day after its last.
  unfoldable pub window_days : SeriesWindowType → Date → Date × Date
  window_days SeriesWindowType.weekly today = (today - weekday today, today - weekday today + 7)
  window_days SeriesWindowType.monthly today =
      let (year, month) = months.civil today in
      (
        months.date_of year month 1,
        if month == 12 then months.date_of (suc year) 1 1 else months.date_of year (suc month) 1,
      )
  window_days SeriesWindowType.custom today = (today, today + 7)

  unfoldable pub compute_window : SeriesWindowType → Household → Time → Time × Time
  unfolding window_days
  compute_window window_type household now =
      let (first, after) = window_days window_type (months.local_date household.timezone now) in
      (months.midnight household.timezone first, months.midnight household.timezone after)

  -- After the checks.
  unfoldable pub insert_linked : SeriesCreate → Household → Time → Action Series
  unfolding compute_window
  insert_linked body household now = do
    id ← uuid
    created_at ← db_now
    let series : Series = record {
      id = id;
      household_id = household.id;
      name = body.name;
      assignee_id = body.assignee_id;
      bonus_points = body.bonus_points;
      payout_mode = body.payout_mode;
      window_type = body.window_type;
      archived_at = none;
      created_at = created_at;
    }
    insert_series series
    modify λ db. record db {
      task_definitions =
          map (link_named body.task_definition_ids household.id series.id) db.task_definitions;
    }
    let window = compute_window series.window_type household now
    instance_id ← uuid
    insert_series_instance (record {
      id = instance_id;
      series_id = series.id;
      window_start = window.0;
      window_end = window.1;
      status = SeriesStatus.active;
      completed_at = none;
      expiring_reminder_sent_at = none;
    })
    pure series

  unfoldable pub create_series : SeriesCreate → Household → Time → Action Series
  unfolding insert_linked
  create_series body household now = do
    definitions ←
        query λ db. filter (named body.task_definition_ids household.id) db.task_definitions
    raise_if (not (length definitions == length body.task_definition_ids)) (http 422)
    assignee ← query (member_in body.assignee_id household.id)
    raise_if (is_none assignee) (http 422)
    insert_linked body household now
