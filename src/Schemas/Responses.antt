-- ===== src/Schemas/Responses.antt =====
-- The responses that are read off a row, with what they leave out.
use kids_chores_api.Prelude.Int.{ℤ}
use kids_chores_api.Prelude.{is_none, Option, ℕ, not, Bool, Text}
use kids_chores_api.Models.{
  SeriesWindowType, ScheduleType, SeriesPayoutMode, Time, ExcusedPayoutPolicy, MemberRole, Series,
  Household, Member, RowId, TaskDefinition,
}

pub record HouseholdResponse : Type 0 where
  pub id : RowId
  pub name : Text
  pub timezone : Text
  pub points_label : Text
  pub excused_payout_policy : ExcusedPayoutPolicy
  pub grace_period_hours : ℕ
  pub task_reminder_minutes_before_due : ℕ
  pub created_at : Time

unfoldable pub household_response : Household → HouseholdResponse
household_response h = record {
  id = h.id;
  name = h.name;
  timezone = h.timezone;
  points_label = h.points_label;
  excused_payout_policy = h.excused_payout_policy;
  grace_period_hours = h.grace_period_hours;
  task_reminder_minutes_before_due = h.task_reminder_minutes_before_due;
  created_at = h.created_at;
}

pub record MemberResponse : Type 0 where
  pub id : RowId
  pub household_id : RowId
  pub role : MemberRole
  pub display_name : Text
  pub avatar : Option Text
  pub birthdate : Option Text
  pub pin_set : Bool
  pub archived_at : Option Time
  pub created_at : Time

-- `Member.pin_set`
unfoldable pub pin_set : Member → Bool
pin_set m = not (is_none m.pin_hash)

unfoldable pub member_response : Member → MemberResponse
unfolding pin_set
member_response m = record {
  id = m.id;
  household_id = m.household_id;
  role = m.role;
  display_name = m.display_name;
  avatar = m.avatar;
  birthdate = m.birthdate;
  pin_set = pin_set m;
  archived_at = m.archived_at;
  created_at = m.created_at;
}

pub record TaskDefinitionResponse : Type 0 where
  pub id : RowId
  pub household_id : RowId
  pub assignee_id : RowId
  pub title : Text
  pub description : Option Text
  pub point_value : ℕ
  pub schedule_type : ScheduleType
  pub weekday_mask : Option ℤ
  pub start_date : Text
  pub end_date : Option Text
  pub due_time : Text
  pub requires_review : Bool
  pub series_id : Option RowId
  pub archived_at : Option Time
  pub created_at : Time

unfoldable pub definition_response : TaskDefinition → TaskDefinitionResponse
definition_response d = record {
  id = d.id;
  household_id = d.household_id;
  assignee_id = d.assignee_id;
  title = d.title;
  description = d.description;
  point_value = d.point_value;
  schedule_type = d.schedule_type;
  weekday_mask = d.weekday_mask;
  start_date = d.start_date;
  end_date = d.end_date;
  due_time = d.due_time;
  requires_review = d.requires_review;
  series_id = d.series_id;
  archived_at = d.archived_at;
  created_at = d.created_at;
}

pub record SeriesResponse : Type 0 where
  pub id : RowId
  pub household_id : RowId
  pub name : Text
  pub assignee_id : RowId
  pub bonus_points : ℕ
  pub payout_mode : SeriesPayoutMode
  pub window_type : SeriesWindowType
  pub archived_at : Option Time
  pub created_at : Time

unfoldable pub series_response : Series → SeriesResponse
series_response r = record {
  id = r.id;
  household_id = r.household_id;
  name = r.name;
  assignee_id = r.assignee_id;
  bonus_points = r.bonus_points;
  payout_mode = r.payout_mode;
  window_type = r.window_type;
  archived_at = r.archived_at;
  created_at = r.created_at;
}
