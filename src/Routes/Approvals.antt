-- ===== src/Routes/Approvals.antt =====
-- backend/app/routers/approvals.py: the parent's inbox and the decision on many items at once.
pub mod Results
use kids_chores_api.Web.{Web, on_session}
use kids_chores_api.Redis.{Cache}
use kids_chores_api.Redis.Idempotency.{IdemKey, run_idempotent}
use kids_chores_api.StateMachine.{review, resolve_excuse}
use kids_chores_api.Session.{
  Db, Action, Result, ok, err, invalid_transition, value_error, assertion_error, attempt, pure,
  raise, query, or_raise, ◌>>=◌, ◌>>◌, with_definition, instance_in, find_row,
}
use kids_chores_api.Schemas.{
  ItemType, ApprovalItem, BulkApproveItem, BulkApproveRequest, BulkApproveResponse,
  BulkApproveResultItem,
}
use kids_chores_api.Models.{
  RowId, Time, Household, Member, TaskDefinition, TaskInstance, TaskStatus, is_status,
}
use kids_chores_api.Prelude.{
  ◌++◌, Bool, true, false, ◌&&◌, ◌||◌, Option, none, some, List, [], ◌∷◌, leb, ltb, ◌==◌,
  if◌then◌else◌,
}
use kids_chores_api.Prelude.Order.{order_by}

abbrev is_pending_approval : TaskInstance → Bool
is_pending_approval i =
    is_status i.status TaskStatus.review_pending || is_status i.status TaskStatus.excuse_pending

-- A row with the definition and the assignee that are loaded with it.
abbrev pub Loaded : Type 0
Loaded = TaskInstance × TaskDefinition × Member

-- The joins are inner joins.
load : RowId → Db → TaskInstance → List Loaded
load household_id db i = elim (with_definition household_id db i) [
  | none ↦ []
  | some (j, d) ↦ elim (find_row (λ (m : Member). m.id) i.assignee_id db.members) [
    | none ↦ []
    | some m ↦ (i, d, m) ∷ []
  ]
]

pending_rows : RowId → Db → List TaskInstance → List Loaded
unfolding load
pending_rows household_id db [] = []
pending_rows household_id db (i ∷ is) =
    let rest = pending_rows household_id db is in
    if is_pending_approval i then load household_id db i ++ rest else rest

-- `.asc()`, where a null is last, and otherwise how the next key decides.
completed_before : Option Time → Option Time → Bool
completed_before none none = true
completed_before none (some t) = false
completed_before (some t) none = true
completed_before (some t) (some u) = leb t u

-- `.asc().nullsfirst()`, then the second key.
submitted_before : Option Time → Option Time → Bool → Bool
submitted_before none none next = next
submitted_before none (some t) next = true
submitted_before (some t) none next = false
submitted_before (some t) (some u) next = ltb t u || t == u && next

unfoldable pub inbox_before : Loaded → Loaded → Bool
unfolding submitted_before completed_before
inbox_before (i, di, mi) (j, dj, mj) =
    submitted_before i.excuse_submitted_at j.excuse_submitted_at
      (completed_before i.completed_at j.completed_at)

abbrev item : ItemType → Loaded → Time → ApprovalItem
item item_type (i, d, m) submitted_at = record {
  item_type = item_type;
  task_instance_id = i.id;
  task_title = d.title;
  assignee_name = m.display_name;
  point_value = i.point_value;
  submitted_at = submitted_at;
  excuse_text = i.excuse_text;
}

-- `assert submitted_at is not None`
item_of : Loaded → Action ApprovalItem
item_of (i, d, m) =
    if is_status i.status TaskStatus.review_pending
    then (do
      t ← or_raise i.completed_at assertion_error
      pure (item ItemType.completion (i, d, m) t))
    else do
      t ← or_raise i.excuse_submitted_at assertion_error
      pure (item ItemType.excuse (i, d, m) t)

items_of : List Loaded → Action (List ApprovalItem)
unfolding item_of
items_of [] = pure []
items_of (r ∷ rows) = do x ← item_of r; xs ← items_of rows; pure (x ∷ xs)

unfoldable pub get_approval_inbox : Household → Action (List ApprovalItem)
unfolding pending_rows items_of
get_approval_inbox household = do
  rows ← query λ db. order_by inbox_before (pending_rows household.id db db.task_instances)
  items_of rows

abbrev pub succeeded : RowId → TaskStatus → BulkApproveResultItem
succeeded id status = record {
  task_instance_id = id;
  success = true;
  status = some status;
  failed = false;
}

abbrev pub failure : RowId → BulkApproveResultItem
failure id = record { task_instance_id = id; success = false; status = none; failed = true }

-- `except (InvalidTransitionError, ValueError)`: any other exception ends the batch.
unfoldable pub result_item : RowId → Result TaskInstance → Action BulkApproveResultItem
result_item id (ok i) = pure (succeeded id i.status)
result_item id (err invalid_transition) = pure (failure id)
result_item id (err value_error) = pure (failure id)
result_item id (err e) = raise e

-- The body of the loop for an instance that was found.
unfoldable pub decide_found :
    TaskInstance × TaskDefinition
    → BulkApproveItem
    → Member
    → Household
    → Time
    → Action BulkApproveResultItem
unfolding result_item
decide_found (i, d) item parent household now =
    if is_status i.status TaskStatus.review_pending
    then (do
      r ← attempt (review i d parent household item.approve item.comment now)
      result_item item.task_instance_id r)
    else if is_status i.status TaskStatus.excuse_pending
    then (do
      r ← attempt (resolve_excuse i d parent household item.approve item.comment now)
      result_item item.task_instance_id r)
    else pure (failure item.task_instance_id)

unfoldable pub decide_loaded :
    Option (TaskInstance × TaskDefinition)
    → BulkApproveItem
    → Member
    → Household
    → Time
    → Action BulkApproveResultItem
unfolding decide_found
decide_loaded none item parent household now = pure (failure item.task_instance_id)
decide_loaded (some found) item parent household now = decide_found found item parent household now

unfoldable pub decide_item :
    BulkApproveItem → Member → Household → Time → Action BulkApproveResultItem
unfolding decide_loaded
decide_item item parent household now = do
  found ← query (instance_in item.task_instance_id household.id)
  decide_loaded found item parent household now

unfoldable pub run_batch :
    List BulkApproveItem → Member → Household → Time → Action (List BulkApproveResultItem)
run_batch [] parent household now = pure []
run_batch (item ∷ items) parent household now = do
  r ← decide_item item parent household now
  rs ← run_batch items parent household now
  pure (r ∷ rs)

abbrev pub batch_response :
    BulkApproveRequest → Member → Household → Time → Action BulkApproveResponse
batch_response body parent household now = do
  results ← run_batch body.items parent household now
  pure (record { results = results })

unfoldable pub bulk_approve :
    {J : Type 0} (C : Cache IdemKey J)
    → (BulkApproveResponse → J)
    → (J → BulkApproveResponse)
    → BulkApproveRequest
    → Member
    → Household
    → Time
    → Web C.Store BulkApproveResponse
bulk_approve C serialize deserialize body parent household now =
    run_idempotent C serialize deserialize parent.id body.idempotency_key
      (on_session (batch_response body parent household now)) now
