-- ===== src/Models/Tables.antt =====
-- The mapped classes of backend/app/db/models.py, column by column. Identifiers are only compared,
-- so they are numbers; a `DateTime` column is a count of microseconds; a nullable column is an
-- `Option`. Columns that request validation keeps positive (points) are natural numbers.
use kids_chores_api.Models.Enums.{
  MemberRole, AuthProvider, ExcusedPayoutPolicy, ScheduleType, TaskStatus, SeriesPayoutMode,
  SeriesWindowType, SeriesStatus, LedgerEntryType, ClaimStatus,
}
use kids_chores_api.Prelude.{ℕ, Bool, Option, Text}
use kids_chores_api.Prelude.Int.{ℤ}

abbrev pub RowId : Type 0
RowId = ℕ

-- Microseconds since `datetime.min`, in UTC.
abbrev pub Time : Type 0
Time = ℕ

pub record Household : Type 0 where
  pub id : RowId
  pub name : Text
  pub timezone : Text
  pub points_label : Text
  pub excused_payout_policy : ExcusedPayoutPolicy
  pub grace_period_hours : ℕ
  pub task_reminder_minutes_before_due : ℕ
  pub created_at : Time

pub record Member : Type 0 where
  pub id : RowId
  pub household_id : RowId
  pub role : MemberRole
  pub display_name : Text
  pub avatar : Option Text
  pub auth_provider : AuthProvider
  pub auth_subject : Text
  pub password_hash : Option Text
  pub pin_hash : Option Text
  pub birthdate : Option Text
  pub push_token : Option Text
  pub created_at : Time
  pub archived_at : Option Time

pub record TaskDefinition : Type 0 where
  pub id : RowId
  pub household_id : RowId
  pub assignee_id : RowId
  pub title : Text
  pub description : Option Text
  pub point_value : ℕ
  pub schedule_type : ScheduleType
  pub weekday_mask : Option ℤ
  pub start_date : Text
  pub end_date : Option Text
  pub due_time : Text
  pub requires_review : Bool
  pub series_id : Option RowId
  pub archived_at : Option Time
  pub created_by : RowId
  pub created_at : Time

pub record TaskInstance : Type 0 where
  pub id : RowId
  pub definition_id : RowId
  pub assignee_id : RowId
  pub due_at : Time
  pub point_value : ℕ
  pub status : TaskStatus
  pub completed_at : Option Time
  pub completion_note : Option Text
  pub excuse_text : Option Text
  pub excuse_submitted_at : Option Time
  pub grace_paused_at : Option Time
  pub grace_elapsed_seconds : ℕ
  pub reviewed_by : Option RowId
  pub reviewed_at : Option Time
  pub review_comment : Option Text
  pub series_instance_id : Option RowId
  pub reminder_sent_at : Option Time

pub record Series : Type 0 where
  pub id : RowId
  pub household_id : RowId
  pub name : Text
  pub assignee_id : RowId
  pub bonus_points : ℕ
  pub payout_mode : SeriesPayoutMode
  pub window_type : SeriesWindowType
  pub archived_at : Option Time
  pub created_at : Time

pub record SeriesInstance : Type 0 where
  pub id : RowId
  pub series_id : RowId
  pub window_start : Time
  pub window_end : Time
  pub status : SeriesStatus
  pub completed_at : Option Time
  pub expiring_reminder_sent_at : Option Time

pub record LedgerEntry : Type 0 where
  pub id : RowId
  pub member_id : RowId
  pub delta : ℤ
  pub balance_after : ℤ
  pub entry_type : LedgerEntryType
  pub task_instance_id : Option RowId
  pub series_instance_id : Option RowId
  pub claim_id : Option RowId
  pub reason : Text
  pub created_by : RowId
  pub created_at : Time

pub record Claim : Type 0 where
  pub id : RowId
  pub member_id : RowId
  pub points : ℕ
  pub requested_item : Text
  pub status : ClaimStatus
  pub parent_note : Option Text
  pub requested_at : Time
  pub resolved_at : Option Time
  pub resolved_by : Option RowId

pub record SavingsGoal : Type 0 where
  pub id : RowId
  pub member_id : RowId
  pub title : Text
  pub target_points : ℕ
  pub created_at : Time
  pub achieved_at : Option Time
