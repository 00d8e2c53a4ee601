-- ===== src/Routes/Definitions.antt =====
-- backend/app/routers/definitions.py: task definitions. The caller of a route that writes is a parent.
use kids_chores_api.Session.{
  value_error, raise_if, insert_definition, http, db_now, definition_in, pure, or_raise, member_in,
  ◌>>◌, uuid, modify, query, ◌>>=◌, update_row, Db, Action,
}
use kids_chores_api.Models.{Time, Member, ScheduleType, Household, RowId, TaskDefinition}
use kids_chores_api.Generation.{upsert_instance_for_date, Date, Calendar}
use kids_chores_api.Prelude.{
  ◌||◌, is_none, ◌&&◌, ◌==◌, filter, leb, Text, none, List, some, Option, Bool,
}
use kids_chores_api.Schemas.{TaskDefinitionCreate, TaskDefinitionUpdate}
pub mod Scope
use kids_chores_api.Routes.Household.{or_keep}
use kids_chores_api.Prelude.Order.{order_by}

abbrev pub put_definition : TaskDefinition → Db → Db
put_definition d db = record db {
  task_definitions = update_row (λ (r : TaskDefinition). r.id) d db.task_definitions;
}

abbrev pub definition_of : TaskDefinitionCreate → Member → Household → RowId → Time → TaskDefinition
definition_of body parent household id created_at = record {
  id = id;
  household_id = household.id;
  assignee_id = body.assignee_id;
  title = body.title;
  description = body.description;
  point_value = body.point_value;
  schedule_type = body.schedule_type;
  weekday_mask = body.weekday_mask;
  start_date = body.start_date;
  end_date = body.end_date;
  due_time = body.due_time;
  requires_review = body.requires_review;
  series_id = body.series_id;
  archived_at = none;
  created_by = parent.id;
  created_at = created_at;
}

or_keep_none : {A : Type 0} → Option A → Option A → Option A
or_keep_none none old = old
or_keep_none (some new) old = some new

-- `exclude_none`: a field that was not given keeps its value.
unfoldable pub changed_definition : TaskDefinitionUpdate → TaskDefinition → TaskDefinition
unfolding or_keep_none
changed_definition body definition = record definition {
  title = or_keep body.title definition.title;
  description = or_keep_none body.description definition.description;
  point_value = or_keep body.point_value definition.point_value;
  schedule_type = or_keep body.schedule_type definition.schedule_type;
  weekday_mask = or_keep_none body.weekday_mask definition.weekday_mask;
  end_date = or_keep_none body.end_date definition.end_date;
  due_time = or_keep body.due_time definition.due_time;
  requires_review = or_keep body.requires_review definition.requires_review;
}

unfoldable pub list_definitions : Bool → Household → Db → List TaskDefinition
list_definitions include_archived household db =
    order_by (λ (d : TaskDefinition) (e : TaskDefinition). leb e.created_at d.created_at)
      (filter
        (λ (d : TaskDefinition).
          d.household_id == household.id && (include_archived || is_none d.archived_at))
        db.task_definitions)

unfoldable pub get_definition_or_404 : RowId → RowId → Action TaskDefinition
get_definition_or_404 definition_id household_id = do
  found ← query (definition_in definition_id household_id)
  or_raise found (http 404)

unfoldable pub update_definition : RowId → TaskDefinitionUpdate → Household → Action TaskDefinition
unfolding get_definition_or_404
update_definition definition_id body household = do
  definition ← get_definition_or_404 definition_id household.id
  modify (put_definition (changed_definition body definition))
  pure (changed_definition body definition)

unfoldable pub archive_definition : RowId → Household → Time → Action Unit
unfolding get_definition_or_404
archive_definition definition_id household now = do
  definition ← get_definition_or_404 definition_id household.id
  modify (put_definition (record definition { archived_at = some now }))

module _ (calendar : Calendar) where
  -- The day of the instance that is made at once.
  unfoldable pub first_day : ScheduleType → Text → Household → Time → Action Date
  first_day ScheduleType.one_time start_date household now =
      or_raise (calendar.parse_date start_date) value_error
  first_day ScheduleType.daily start_date household now =
      pure (calendar.local_date household.timezone now)
  first_day ScheduleType.weekdays start_date household now =
      pure (calendar.local_date household.timezone now)
  first_day ScheduleType.weekly start_date household now =
      pure (calendar.local_date household.timezone now)

  -- After the assignee has been checked.
  unfoldable pub insert_and_generate :
      TaskDefinitionCreate → Member → Household → Time → Action TaskDefinition
  unfolding first_day
  insert_and_generate body parent household now = do
    id ← uuid
    created_at ← db_now
    let definition = definition_of body parent household id created_at
    insert_definition definition
    target_date ← first_day definition.schedule_type definition.start_date household now
    upsert_instance_for_date calendar definition target_date household.timezone now
    pure definition

  unfoldable pub create_definition :
      TaskDefinitionCreate → Member → Household → Time → Action TaskDefinition
  create_definition body parent household now = do
    assignee ← query (member_in body.assignee_id household.id)
    raise_if (is_none assignee) (http 422)
    insert_and_generate body parent household now
