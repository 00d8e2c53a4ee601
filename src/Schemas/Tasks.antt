-- ===== src/Schemas/Tasks.antt =====
-- The requests on a task instance and on the parent's inbox, and their responses.
use kids_chores_api.Models.{RowId, Time, TaskStatus, TaskInstance}
use kids_chores_api.Prelude.{ℕ, Bool, Option, none, List, Text}

pub record TaskInstanceResponse : Type 0 where
  pub id : RowId
  pub definition_id : RowId
  pub assignee_id : RowId
  pub due_at : Time
  pub point_value : ℕ
  pub status : TaskStatus
  pub completed_at : Option Time
  pub completion_note : Option Text
  pub excuse_text : Option Text
  pub review_comment : Option Text
  pub series_instance_id : Option RowId
  pub title : Option Text
  pub description : Option Text

-- `TaskInstanceResponse.model_validate(instance)`: the row has no title and no description.
abbrev pub response_of : TaskInstance → TaskInstanceResponse
response_of i = record {
  id = i.id;
  definition_id = i.definition_id;
  assignee_id = i.assignee_id;
  due_at = i.due_at;
  point_value = i.point_value;
  status = i.status;
  completed_at = i.completed_at;
  completion_note = i.completion_note;
  excuse_text = i.excuse_text;
  review_comment = i.review_comment;
  series_instance_id = i.series_instance_id;
  title = none;
  description = none;
}

pub record CompleteTaskRequest : Type 0 where
  pub idempotency_key : RowId
  pub note : Option Text

pub record ExcuseTaskRequest : Type 0 where
  pub idempotency_key : RowId
  pub excuse_text : Text

pub record ReviewRequest : Type 0 where
  pub idempotency_key : RowId
  pub approve : Bool
  pub comment : Option Text

pub record CancelTaskRequest : Type 0 where
  pub idempotency_key : RowId
  pub reason : Option Text

pub record BulkApproveItem : Type 0 where
  pub task_instance_id : RowId
  pub approve : Bool
  pub comment : Option Text

pub record BulkApproveRequest : Type 0 where
  pub idempotency_key : RowId
  pub items : List BulkApproveItem

-- The texts of errors are left out: `failed` says whether there is one.
pub record BulkApproveResultItem : Type 0 where
  pub task_instance_id : RowId
  pub success : Bool
  pub status : Option TaskStatus
  pub failed : Bool

pub record BulkApproveResponse : Type 0 where
  pub results : List BulkApproveResultItem

pub data ItemType : Type 0 where
  completion excuse : ItemType

pub record ApprovalItem : Type 0 where
  pub item_type : ItemType
  pub task_instance_id : RowId
  pub task_title : Text
  pub assignee_name : Text
  pub point_value : ℕ
  pub submitted_at : Time
  pub excuse_text : Option Text
