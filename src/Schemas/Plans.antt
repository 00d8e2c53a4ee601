-- ===== src/Schemas/Plans.antt =====
-- Task definitions, series and reports.
use kids_chores_api.Prelude.Int.{ℤ}
use kids_chores_api.Models.{
  RowId, Time, ScheduleType, SeriesPayoutMode, SeriesWindowType, SeriesStatus,
}
use kids_chores_api.Prelude.{ℕ, Bool, Option, List, Text}

pub record TaskDefinitionCreate : Type 0 where
  pub assignee_id : RowId
  pub title : Text
  pub description : Option Text
  pub point_value : ℕ
  pub schedule_type : ScheduleType
  pub weekday_mask : Option ℤ
  pub start_date : Text
  pub end_date : Option Text
  pub due_time : Text
  pub requires_review : Bool
  pub series_id : Option RowId

pub record TaskDefinitionUpdate : Type 0 where
  pub title : Option Text
  pub description : Option Text
  pub point_value : Option ℕ
  pub schedule_type : Option ScheduleType
  pub weekday_mask : Option ℤ
  pub end_date : Option Text
  pub due_time : Option Text
  pub requires_review : Option Bool

pub record SeriesCreate : Type 0 where
  pub name : Text
  pub assignee_id : RowId
  pub bonus_points : ℕ
  pub payout_mode : SeriesPayoutMode
  pub window_type : SeriesWindowType
  pub task_definition_ids : List RowId

pub record SeriesUpdate : Type 0 where
  pub name : Option Text
  pub bonus_points : Option ℕ
  pub payout_mode : Option SeriesPayoutMode
  pub window_type : Option SeriesWindowType

-- `progress` counts the complete tasks and all of them, if there is one.
pub record SeriesInstanceResponse : Type 0 where
  pub id : RowId
  pub series_id : RowId
  pub window_start : Time
  pub window_end : Time
  pub status : SeriesStatus
  pub completed_at : Option Time
  pub progress : Option (ℕ × ℕ)
